-- ===== src/File/Meta.antt =====
-- The metadata of a pod's files (pkg/file/file.go, meta.go, inode.go): the map in
-- memory, and the feed of each file's path. The password of the pod and the user are fixed.
pub mod Feeds
pub mod Renamed
pub mod Modify
pub mod Removed
use fair_os_dfs.Prelude.{
  ℕ, Bool, true, false, List, [], ◌∷◌, ◌++◌, Option, none, some, bit_or, ◌==◌, if◌then◌else◌,
}
use fair_os_dfs.Prelude.Result.{Result, ok, err}
use fair_os_dfs.Prelude.Text.{Text, text_eq, codes}
use fair_os_dfs.Prelude.Map.{GoMap, find, assign, delete}
use fair_os_dfs.Prelude.Filepath
use fair_os_dfs.Utils.Paths.{combine_path_and_file}
use fair_os_dfs.Utils.Decimal.{format_int, pos}
use fair_os_dfs.Collection.Manifests.{deleted_feed_magic_word}

-- type MetaData struct
pub record MetaData : Type 0 where
  pub version : ℕ
  pub path : Text
  pub name : Text
  pub size : ℕ
  pub block_size : ℕ
  pub content_type : Text
  pub compression : Text
  pub creation_time : ℕ
  pub access_time : ℕ
  pub modification_time : ℕ
  pub inode_address : Text
  pub mode : ℕ

-- type BlockInfo struct
pub record BlockInfo : Type 0 where
  pub size : ℕ
  pub compressed_size : ℕ
  pub reference : Text

-- const S_IFREG = 0100000
abbrev pub s_ifreg : ℕ
s_ifreg = 32768

-- utils.HashString, the feeds of the user (feed.API), the blobs of the client, and json; a blob that
-- comes with another status than 200 or cannot be read is an error.
pub record Backend (S : Type 0) (E : Type 0) : Type 0 where
  pub read_only : Bool
  pub hash_string : Text → Text
  pub feed_data : Text → S → Result E Text
  pub create_feed : Text → Text → S → Result E (Unit {0}) × S
  pub update_feed : Text → Text → S → Result E (Unit {0}) × S
  pub download_blob : Text → S → Result E Text
  pub delete_reference : Text → S → Result E (Unit {0}) × S
  pub marshal : MetaData → Text
  pub unmarshal : Text → Result E MetaData
  pub unmarshal_inode : Text → Result E (List BlockInfo)

-- the errors of the package, and those of its calls
pub data FileError (E : Type 0) : Type 0 where
  err_file_not_found : FileError E
  err_deleted_feed : FileError E
  err_unknown_feed : FileError E
  err_read_only_feed : FileError E
  failed : E → FileError E

-- type File struct: the map of files, and what is kept outside
pub record File (S : Type 0) : Type 0 where
  pub file_map : GoMap MetaData
  pub outside : S

module _ {S : Type 0} where
  -- func (f *File) AddToFileMap
  unfoldable pub add_to_file_map : Text → MetaData → File S → File S
  add_to_file_map file_path meta f = record f { file_map = assign file_path meta f.file_map }

  -- func (f *File) RemoveFromFileMap
  unfoldable pub remove_from_file_map : Text → File S → File S
  remove_from_file_map file_path f = record f { file_map = delete file_path f.file_map }

  -- func (f *File) GetFromFileMap
  unfoldable pub get_from_file_map : Text → File S → Option MetaData
  get_from_file_map file_path f = find file_path f.file_map

  -- func (f *File) RemoveAllFromFileMap
  unfoldable pub remove_all_from_file_map : File S → File S
  remove_all_from_file_map f = record f { file_map = [] }

-- utils.CombinePathAndFile(meta.Path, meta.Name)
abbrev pub meta_path : MetaData → Text
meta_path meta = combine_path_and_file meta.path meta.name

module _ {S : Type 0} {E : Type 0} (b : Backend S E) where
  abbrev pub Answer : Type 0 → Type 0
  Answer A = Result (FileError E) A × File S

  abbrev pub as_failed : Result E (Unit {0}) × S → File S → Answer (Unit {0})
  as_failed (err e, s) f = (err (failed e), record f { outside = s })
  as_failed (ok t, s) f = (ok tt, record f { outside = s })

  abbrev pub kept_meta : Text → File S → Result E MetaData → Option MetaData × File S
  kept_meta file_path f (err e) = (none, f)
  kept_meta file_path f (ok meta) = (some meta, add_to_file_map file_path meta f)

  abbrev pub fed_meta : Text → File S → Result E Text → Option MetaData × File S
  fed_meta file_path f (err e) = (none, f)
  fed_meta file_path f (ok meta_bytes) =
      if text_eq meta_bytes deleted_feed_magic_word
      then (none, f)
      else kept_meta file_path f (b.unmarshal meta_bytes)

  -- func (f *File) GetInode
  unfoldable pub get_inode : Text → File S → Option MetaData × File S
  unfolding get_from_file_map add_to_file_map
  get_inode file_path f = elim (get_from_file_map file_path f) [
    | some meta ↦ (some meta, f)
    | none ↦ fed_meta file_path f (b.feed_data (b.hash_string file_path) f.outside)
  ]

  abbrev pub is_some : Option MetaData → Bool
  is_some none = false
  is_some (some meta) = true

  -- func (f *File) IsFileAlreadyPresent
  unfoldable pub is_file_already_present : Text → File S → Bool × File S
  unfolding get_inode
  is_file_already_present file_path f = let (meta, f') = get_inode file_path f in (is_some meta, f')

  abbrev pub known_meta : Result E MetaData → Result (FileError E) MetaData
  known_meta (err e) = err err_unknown_feed
  known_meta (ok meta) = ok meta

  -- func (f *File) GetMetaFromFileName
  unfoldable pub get_meta_from_file_name : Text → S → Result (FileError E) MetaData
  get_meta_from_file_name file_path s = elim (b.feed_data (b.hash_string file_path) s) [
    | err e ↦ err (failed e)
    | ok meta_bytes ↦
        if text_eq meta_bytes deleted_feed_magic_word
        then err err_deleted_feed
        else known_meta (b.unmarshal meta_bytes)
  ]

  -- func (f *File) LoadFileMeta
  unfoldable pub load_file_meta : Text → File S → Answer (Unit {0})
  unfolding get_meta_from_file_name add_to_file_map
  load_file_meta file_path f = elim (get_meta_from_file_name file_path f.outside) [
    | err err_deleted_feed ↦ (ok tt, f)
    | err e ↦ (err e, f)
    | ok meta ↦ (ok tt, add_to_file_map file_path meta f)
  ]

  -- func (f *File) uploadMeta
  unfoldable pub upload_meta : MetaData → File S → Answer (Unit {0})
  upload_meta meta f =
      as_failed (b.create_feed (b.hash_string (meta_path meta)) (b.marshal meta) f.outside) f

  -- func (f *File) deleteMeta
  unfoldable pub delete_meta : MetaData → File S → Answer (Unit {0})
  delete_meta meta f =
      as_failed (b.update_feed (b.hash_string (meta_path meta)) deleted_feed_magic_word f.outside) f

  -- func (f *File) updateMeta
  unfoldable pub update_meta : MetaData → File S → Answer (Unit {0})
  update_meta meta f =
      as_failed (b.update_feed (b.hash_string (meta_path meta)) (b.marshal meta) f.outside) f

  -- err == nil || errors.Is(err, ErrDeletedFeed)
  abbrev pub is_present : Result (FileError E) MetaData → Bool
  is_present (ok meta) = true
  is_present (err err_deleted_feed) = true
  is_present (err e) = false

  -- func (f *File) handleMeta
  unfoldable pub handle_meta : MetaData → File S → Answer (Unit {0})
  unfolding get_meta_from_file_name upload_meta update_meta
  handle_meta meta f =
      if is_present (get_meta_from_file_name (meta_path meta) f.outside)
      then update_meta meta f
      else upload_meta meta f

  -- what is left to do when a file's metadata has been written under a path
  abbrev pub then_map : Text → MetaData → Answer (Unit {0}) → Answer MetaData
  then_map file_path meta (err e, f) = (err e, f)
  then_map file_path meta (ok t, f) = (ok meta, add_to_file_map file_path meta f)

  abbrev pub renamed : Text → ℕ → MetaData → MetaData
  renamed new_path now p = record p {
    name = Filepath.base new_path;
    path = Filepath.dir new_path;
    modification_time = now;
  }

  abbrev pub rename_deleted : Text → Text → ℕ → MetaData → Answer (Unit {0}) → Answer MetaData
  rename_deleted file_path new_path now p (err e, f) = (err e, f)
  rename_deleted file_path new_path now p (ok t, f) =
      then_map new_path (renamed new_path now p)
        (handle_meta (renamed new_path now p) (remove_from_file_map file_path f))

  abbrev pub rename_found : Text → Text → ℕ → Option MetaData × File S → Answer MetaData
  rename_found file_path new_path now (none, f) = (err err_file_not_found, f)
  rename_found file_path new_path now (some p, f) =
      rename_deleted file_path new_path now p (delete_meta p f)

  -- func (f *File) RenameFromFileName, at the time `now`; on Unix filepath.ToSlash changes nothing
  unfoldable pub rename_from_file_name : Text → Text → ℕ → File S → Answer MetaData
  unfolding get_inode delete_meta handle_meta remove_from_file_map add_to_file_map
  rename_from_file_name file_path new_path now f =
      rename_found file_path new_path now (get_inode file_path f)

  abbrev pub backup_of : ℕ → MetaData → MetaData
  backup_of now p = record p {
    name = format_int (pos now) ++ codes "_" ++ p.name;
    modification_time = now;
  }

  abbrev pub backup_deleted : ℕ → MetaData → Answer (Unit {0}) → Answer MetaData
  backup_deleted now p (err e, f) = (err e, f)
  backup_deleted now p (ok t, f) =
      then_map (meta_path (backup_of now p)) (backup_of now p) (upload_meta (backup_of now p) f)

  -- func (f *File) BackupFromFileName, at the time `now`
  unfoldable pub backup_from_file_name : Text → ℕ → File S → Answer MetaData
  unfolding get_meta_from_file_name delete_meta upload_meta add_to_file_map
  backup_from_file_name file_path now f = elim (get_meta_from_file_name file_path f.outside) [
    | err e ↦ (err e, f)
    | ok p ↦ backup_deleted now p (delete_meta p f)
  ]

  -- func (f *File) PutMetaForFile
  unfoldable pub put_meta_for_file : MetaData → File S → Answer (Unit {0})
  unfolding update_meta
  put_meta_for_file meta f = update_meta meta f
