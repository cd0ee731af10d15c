-- ===== src/Tests/MetaTests.antt =====
-- Instances for the metadata of files: feeds in memory.
use fair_os_dfs.Prelude.{
  ◌≡◌, refl, sym, ap, ◌∙◌, true, false, [], ◌∷◌, ◌++◌, Option, none, some, length, take, drop,
  take-length-append, drop-length-append, ◌⊎◌, if◌then◌else◌, inl, inr, Bool-cases,
}
use fair_os_dfs.Prelude.Result.{Result, ok, err}
use fair_os_dfs.Prelude.Text.{Text, text_eq, codes, has_prefix, strip, trim_prefix}
use fair_os_dfs.Prelude.Map.{GoMap, find, assign, delete, find-assign}
use fair_os_dfs.Prelude.Filepath.{
  dir, base, clean, clean_parts, clean_part, split, join_reversed, cut_last, trim_slashes,
}
use fair_os_dfs.Utils.Paths.{combine_path_and_file}
use fair_os_dfs.File.Meta.{
  MetaData, Backend, FileError, err_deleted_feed, failed, File, renamed, get_from_file_map,
  add_to_file_map, remove_from_file_map, get_inode, get_meta_from_file_name, delete_meta,
  update_meta, upload_meta, handle_meta, rename_from_file_name,
}
use fair_os_dfs.File.Meta.Modify.{delete_blocks, rm_file, chmod}
use fair_os_dfs.File.Meta.Feeds.{IsBackend}
use fair_os_dfs.File.Meta.Renamed.{rename-get_inode}
use fair_os_dfs.File.Meta.Removed.{RemovedFrom, rm_file-get_inode, chmod_failed}

data Missing : Type 0 where
  missing : Missing

-- a text with its length in front
abbrev prefixed : Text → Text → Text
prefixed t rest = length t ∷ (t ++ rest)

abbrev cut : Text → Text × Text
cut [] = ([], [])
cut (n ∷ rest) = (take n rest, drop n rest)

cut-prefixed : (t rest : Text) → cut (prefixed t rest) ≡ (t, rest)
cut-prefixed t rest = rw (take-length-append t rest, drop-length-append t rest) refl

abbrev marshal : MetaData → Text
marshal m =
    0
    ∷ m.version
    ∷ m.size
    ∷ m.block_size
    ∷ m.creation_time
    ∷ m.access_time
    ∷ m.modification_time
    ∷ m.mode
    ∷ prefixed m.path (
        prefixed m.name
          (prefixed m.content_type (prefixed m.compression (prefixed m.inode_address []))))

abbrev unmarshal : Text → Result Missing MetaData
unmarshal (z ∷ version ∷ size ∷ block_size ∷ created ∷ accessed ∷ modified ∷ mode ∷ texts) =
    let (path, r1) = cut texts in
    let (name, r2) = cut r1 in
    let (content_type, r3) = cut r2 in
    let (compression, r4) = cut r3 in
    let (inode_address, r5) = cut r4 in
    ok (record {
      version = version;
      path = path;
      name = name;
      size = size;
      block_size = block_size;
      content_type = content_type;
      compression = compression;
      creation_time = created;
      access_time = accessed;
      modification_time = modified;
      inode_address = inode_address;
      mode = mode;
    })
unmarshal t = err missing

unmarshal-marshal : (m : MetaData) → unmarshal (marshal m) ≡ ok m
unmarshal-marshal m =
    rw
      (
        take-length-append m.path (
            prefixed m.name
              (prefixed m.content_type (prefixed m.compression (prefixed m.inode_address [])))),
        drop-length-append m.path (
            prefixed m.name
              (prefixed m.content_type (prefixed m.compression (prefixed m.inode_address [])))),
        take-length-append m.name
            (prefixed m.content_type (prefixed m.compression (prefixed m.inode_address []))),
        drop-length-append m.name
            (prefixed m.content_type (prefixed m.compression (prefixed m.inode_address []))),
        take-length-append m.content_type (prefixed m.compression (prefixed m.inode_address [])),
        drop-length-append m.content_type (prefixed m.compression (prefixed m.inode_address [])),
        take-length-append m.compression (prefixed m.inode_address []),
        drop-length-append m.compression (prefixed m.inode_address []),
        take-length-append m.inode_address [],
      )
      refl

abbrev Feeds : Type 0
Feeds = GoMap Text

abbrev feed_of : Option Text → Result Missing Text
feed_of none = err missing
feed_of (some d) = ok d

abbrev memory : Backend Feeds Missing
memory = record {
  read_only = false;
  hash_string = λ path. path;
  feed_data = λ topic s. feed_of (find topic s);
  create_feed = λ topic d s. (ok tt, assign topic d s);
  update_feed = λ topic d s. (ok tt, assign topic d s);
  download_blob = λ ref s. ok [];
  delete_reference = λ ref s. (ok tt, s);
  marshal = marshal;
  unmarshal = unmarshal;
  unmarshal_inode = λ t. ok [];
}

wrote :
    (topic d : Text) (s s' : Feeds)
    → memory.update_feed topic d s ≡ (ok tt, s')
    → (t : Text) → memory.feed_data t s' ≡ (if text_eq topic t then ok d else memory.feed_data t s)
wrote topic d s s' h t =
    let there = ap (λ (r : Result Missing (Unit {0}) × Feeds). r.1) h in
    rw (sym there) (ap feed_of (find-assign topic t d s) ∙ cases (Bool-cases (text_eq topic t)))
  where
    cases :
        (text_eq topic t ≡ true) ⊎ (text_eq topic t ≡ false)
        → feed_of (if text_eq topic t then some d else find t s)
          ≡ (if text_eq topic t then ok d else feed_of (find t s))
    cases (inl q) = rw q refl
    cases (inr q) = rw q refl

memory-IsBackend : IsBackend memory
unfolding text_eq
memory-IsBackend = record {
  update-data = wrote;
  create-data = wrote;
  delete-data = λ ref s t. refl;
  unmarshal-marshal = unmarshal-marshal;
  marshal_not_magic = λ m. refl;
  hash-apart = λ m n differ. differ;
}

abbrev meta : MetaData
meta = record {
  version = 2;
  path = codes "/";
  name = codes "a";
  size = 3;
  block_size = 1;
  content_type = [];
  compression = [];
  creation_time = 1;
  access_time = 1;
  modification_time = 1;
  inode_address = 7 ∷ [];
  mode = 33152;
}

abbrev one_file : File Feeds
one_file = record { file_map = (codes "/a", meta) ∷ []; outside = (codes "/a", marshal meta) ∷ [] }

abbrev after_rename : Result (FileError Missing) MetaData × File Feeds
after_rename = rename_from_file_name memory (codes "/a") (codes "/b") 5 one_file

rename_ok : after_rename ≡ (ok (renamed memory (codes "/b") 5 meta), after_rename.1)
unfolding rename_from_file_name get_inode get_from_file_map delete_meta handle_meta update_meta
    upload_meta get_meta_from_file_name add_to_file_map remove_from_file_map find assign delete
    text_eq combine_path_and_file dir base clean clean_parts clean_part split join_reversed cut_last
    trim_slashes has_prefix strip trim_prefix
rename_ok = refl

rename-get_inode_example :
    (renamed memory (codes "/b") 5 meta ≡ renamed memory (codes "/b") 5 meta)
    × ((get_inode memory (codes "/b") after_rename.1).0 ≡ some (renamed memory (codes "/b") 5 meta))
    × (get_meta_from_file_name memory (codes "/b") after_rename.1.outside
        ≡ ok (renamed memory (codes "/b") 5 meta))
    × ((get_inode memory (codes "/a") after_rename.1).0 ≡ none)
    × (get_meta_from_file_name memory (codes "/a") after_rename.1.outside ≡ err err_deleted_feed)
    × ((k : Text)
        → text_eq (codes "/a") k ≡ false
        → text_eq (codes "/b") k ≡ false
        → (get_inode memory k after_rename.1).0 ≡ (get_inode memory k one_file).0)
unfolding get_inode get_from_file_map find text_eq combine_path_and_file dir base clean clean_parts
    clean_part split join_reversed cut_last trim_slashes has_prefix strip trim_prefix
rename-get_inode_example =
    rename-get_inode memory memory-IsBackend (codes "/a") (codes "/b") 5 meta one_file
      after_rename.1 refl refl refl (renamed memory (codes "/b") 5 meta) refl rename_ok

abbrev after_rm : Result (FileError Missing) (Unit {0}) × File Feeds
after_rm = rm_file memory (codes "/a") one_file

rm_ok : after_rm ≡ (ok tt, after_rm.1)
unfolding rm_file get_inode get_from_file_map delete_blocks remove_from_file_map find assign delete
    text_eq combine_path_and_file
rm_ok = refl

rm_file-get_inode_example :
    RemovedFrom memory memory-IsBackend (combine_path_and_file (codes "/a") []) one_file after_rm.1
rm_file-get_inode_example =
    rm_file-get_inode memory memory-IsBackend (codes "/a") one_file after_rm.1 rm_ok

-- the same feeds, which cannot be written
abbrev broken : Backend Feeds Missing
broken = record {
  read_only = false;
  hash_string = λ path. path;
  feed_data = λ topic s. feed_of (find topic s);
  create_feed = λ topic d s. (err missing, s);
  update_feed = λ topic d s. (err missing, s);
  download_blob = λ ref s. ok [];
  delete_reference = λ ref s. (ok tt, s);
  marshal = marshal;
  unmarshal = unmarshal;
  unmarshal_inode = λ t. ok [];
}

abbrev after_chmod : Result (FileError Missing) (Unit {0}) × File Feeds
after_chmod = chmod broken (codes "/a") 420 5 one_file

chmod_fails : after_chmod ≡ (err (failed missing), after_chmod.1)
unfolding chmod get_inode get_from_file_map update_meta add_to_file_map find assign text_eq
    combine_path_and_file
chmod_fails = refl

chmod_failed_example : chmod broken (codes "/a") 420 6 after_chmod.1 ≡ (ok tt, after_chmod.1)
chmod_failed_example =
    chmod_failed broken (codes "/a") 420 5 missing one_file after_chmod.1 6 chmod_fails
