-- ===== src/Dir.antt =====
-- pkg/dir: the inodes of a pod's directories (inode.go, dir.go, modify_dir_entry.go, chmod.go,
-- stat.go, dir_present.go). The files (pkg/file), the feeds that held inodes before, and
-- encoding/json are the interface `Backend`; the password of the pod is fixed.
pub mod Names
pub mod Entries
pub mod Make
pub mod Made
pub mod MkDir
use fair_os_dfs.Prelude.{
  ℕ, ◌+◌, ◌≡◌, Bool, true, false, not, List, [], ◌∷◌, ◌++◌, Option, none, some, bit_or, ◌==◌,
  if◌then◌else◌,
}
use fair_os_dfs.Prelude.Result.{Result, ok, err}
use fair_os_dfs.Prelude.Text.{codes, text_eq, has_prefix}
use fair_os_dfs.Prelude.Map.{GoMap, find, assign, delete}
use fair_os_dfs.Utils.Paths.{combine_path_and_file}

abbrev pub Text : Type 0
Text = List ℕ

-- type MetaData struct
pub record MetaData : Type 0 where
  pub version : ℕ
  pub path : Text
  pub name : Text
  pub mode : ℕ
  pub creation_time : ℕ
  pub modification_time : ℕ
  pub access_time : ℕ

-- type Inode struct; every inode that SetInode has written has its metadata
pub record Inode : Type 0 where
  pub meta : MetaData
  pub file_or_dir_names : List Text

-- const IndexFileName
abbrev pub index_file_name : Text
index_file_name = codes "index.dfs"

-- const S_IFDIR = 0040000
abbrev pub s_ifdir : ℕ
s_ifdir = 16384

-- The calls of IFile.Download with io.ReadAll, IFile.Upload of the index file of a directory,
-- feed.GetFeedData and feed.DeleteFeedFromTopic at the hash of a path, and json.
pub record Backend (S : Type 0) (D : Type 0) (E : Type 0) : Type 0 where
  pub download : Text → S → Result E D
  pub upload_index : Text → D → S → Result E (Unit {0}) × S
  pub feed_data : Text → S → Result E D
  pub delete_feed : Text → S → S
  pub marshal : Inode → D
  pub unmarshal : D → Result E Inode
  pub is_deleted_magic : D → Bool

pub data DirError (E : Type 0) : Type 0 where
  err_resource_deleted : DirError E
  err_directory_not_present : DirError E
  err_invalid_directory_name : DirError E
  err_invalid_file_or_directory_name : DirError E
  err_too_long_directory_name : DirError E
  err_directory_already_present : DirError E
  failed : E → DirError E

-- type Directory struct: the cache of inodes, and the files behind it
pub record Directory (S : Type 0) : Type 0 where
  pub dir_map : GoMap Inode
  pub files : S

module _ {S : Type 0} where
  -- func (d *Directory) AddToDirectoryMap
  unfoldable pub add_to_directory_map : Text → Inode → Directory S → Directory S
  add_to_directory_map path inode d = record d { dir_map = assign path inode d.dir_map }

  -- func (d *Directory) RemoveFromDirectoryMap
  unfoldable pub remove_from_directory_map : Text → Directory S → Directory S
  remove_from_directory_map path d = record d { dir_map = delete path d.dir_map }

  -- func (d *Directory) RemoveAllFromDirectoryMap
  unfoldable pub remove_all_from_directory_map : Directory S → Directory S
  remove_all_from_directory_map d = record d { dir_map = [] }

  -- func (d *Directory) GetDirFromDirectoryMap
  unfoldable pub get_dir_from_directory_map : Text → Directory S → Option Inode
  get_dir_from_directory_map path d = find path d.dir_map

-- "_F_" or "_D_" in front of the name
abbrev pub entry_name : Text → Bool → Text
entry_name item is_file = codes (if is_file then "_F_" else "_D_") ++ item

-- the loop of RemoveEntryFromDir over the names
unfoldable pub without_name : Text → List Text → List Text
without_name item [] = []
without_name item (name ∷ names) =
    let rest = without_name item names in if text_eq name item then rest else name ∷ rest

-- the counts of DirStat: directories and files
unfoldable pub count_names : List Text → ℕ × ℕ
count_names [] = (0, 0)
count_names (name ∷ names) =
    let (dirs, files) = count_names names in
    if has_prefix name (codes "_D_")
    then (dirs + 1, files)
    else if has_prefix name (codes "_F_")
    then (dirs, files + 1)
    else (dirs, files)

module _ {S : Type 0} {D : Type 0} {E : Type 0} (b : Backend S D E) where
  abbrev pub Answer : Type 0 → Type 0
  Answer A = Result (DirError E) A × Directory S

  -- func (in *Inode) Unmarshal(data []byte) error
  unfoldable pub unmarshal_inode : D → Result (DirError E) Inode
  unmarshal_inode raw =
      if b.is_deleted_magic raw
      then err err_resource_deleted
      else elim (b.unmarshal raw) [ err e ↦ err (failed e) | ok inode ↦ ok inode ]

  -- utils.CombinePathAndFile(iNode.Meta.Path, iNode.Meta.Name)
  abbrev pub total_path : Inode → Text
  total_path inode = combine_path_and_file inode.meta.path inode.meta.name

  abbrev pub after_upload : Inode → Result E (Unit {0}) → Directory S → Answer (Unit {0})
  after_upload inode (err e) d = (err (failed e), d)
  after_upload inode (ok t) d = (ok tt, add_to_directory_map (total_path inode) inode d)

  -- func (d *Directory) SetInode
  unfoldable pub set_inode : Inode → Directory S → Answer (Unit {0})
  unfolding add_to_directory_map
  set_inode inode d =
      let (r, files) = b.upload_index (total_path inode) (b.marshal inode) d.files in
      after_upload inode r (record d { files = files })

  abbrev pub moved_from_feed : Text → Inode → Answer (Unit {0}) → Answer Inode
  moved_from_feed path inode (err e, d) = (err e, d)
  moved_from_feed path inode (ok t, d) =
      (ok inode, add_to_directory_map path inode (record d { files = b.delete_feed path d.files }))

  -- the inode is not in the files: it is moved from its feed
  unfoldable pub get_from_feed : Text → Directory S → Answer Inode
  unfolding set_inode unmarshal_inode
  get_from_feed path d = elim (b.feed_data path d.files) [
    | err e ↦ (err err_directory_not_present, d)
    | ok raw ↦ elim (unmarshal_inode raw) [
      | err e ↦ (err e, d)
      | ok inode ↦ moved_from_feed path inode (set_inode inode d)
    ]
  ]

  -- func (d *Directory) GetInode
  unfoldable pub get_inode : Text → Directory S → Answer Inode
  unfolding get_from_feed get_dir_from_directory_map
  get_inode path d = elim (get_dir_from_directory_map path d) [
    | some inode ↦ (ok inode, d)
    | none ↦ elim (b.download (combine_path_and_file path index_file_name) d.files) [
      | err e ↦ get_from_feed path d
      | ok raw ↦ elim (unmarshal_inode raw) [
        | err e ↦ (err e, d)
        | ok inode ↦ (ok inode, add_to_directory_map path inode d)
      ]
    ]
  ]

  -- func (d *Directory) IsDirectoryPresent
  unfoldable pub is_directory_present : Text → Directory S → Bool
  unfolding get_inode
  is_directory_present path d = elim (get_inode path d).0 [ err e ↦ false | ok inode ↦ true ]

  -- The inode that GetInode gave is changed in place, in the cache too, and then written.
  abbrev changed_inode : Text → (Inode → Inode) → DirError E → Answer Inode → Answer (Unit {0})
  changed_inode path change missing (err e, d) = (err missing, d)
  changed_inode path change missing (ok inode, d) =
      set_inode (change inode) (add_to_directory_map path (change inode) d)

  abbrev pub added : Text → ℕ → Inode → Inode
  added item now inode = record {
    meta = record inode.meta { modification_time = now };
    file_or_dir_names = inode.file_or_dir_names ++ item ∷ [];
  }

  abbrev pub removed : Text → ℕ → Inode → Inode
  removed item now inode = record {
    meta = record inode.meta { modification_time = now };
    file_or_dir_names = without_name item inode.file_or_dir_names;
  }

  -- func (d *Directory) AddEntryToDir, at the time `now`
  unfoldable pub add_entry_to_dir : Text → Text → Bool → ℕ → Directory S → Answer (Unit {0})
  unfolding get_inode
  add_entry_to_dir parent_dir item is_file now d =
      if text_eq parent_dir []
      then (err err_invalid_directory_name, d)
      else if text_eq item []
      then (err err_invalid_file_or_directory_name, d)
      else changed_inode parent_dir (added (entry_name item is_file) now) err_directory_not_present
          (get_inode parent_dir d)

  -- func (d *Directory) RemoveEntryFromDir, at the time `now`
  unfoldable pub remove_entry_from_dir : Text → Text → Bool → ℕ → Directory S → Answer (Unit {0})
  unfolding get_inode
  remove_entry_from_dir parent_dir item is_file now d =
      if text_eq parent_dir []
      then (err err_invalid_directory_name, d)
      else if text_eq item []
      then (err err_invalid_file_or_directory_name, d)
      else changed_inode parent_dir (removed (entry_name item is_file) now)
          err_directory_not_present (get_inode parent_dir d)

  abbrev after_chmod : Text → ℕ → ℕ → Answer Inode → Answer (Unit {0})
  after_chmod path mode now (err e, d) = (err e, d)
  after_chmod path mode now (ok inode, d) =
      changed_inode path
        (λ i. record i { meta = record i.meta { mode = bit_or s_ifdir mode; access_time = now } })
        err_directory_not_present (ok inode, d)

  -- func (d *Directory) Chmod, at the time `now`; the text put in front of an error is left out
  unfoldable pub chmod : Text → ℕ → ℕ → Directory S → Answer (Unit {0})
  unfolding get_inode
  chmod path mode now d = after_chmod path mode now (get_inode path d)

  abbrev counted : Answer Inode → Answer (ℕ × ℕ)
  counted (err e, d) = (err e, d)
  counted (ok inode, d) = (ok (count_names inode.file_or_dir_names), d)

  -- the counts that func (d *Directory) DirStat reports
  unfoldable pub dir_stat_counts : Text → Directory S → Answer (ℕ × ℕ)
  unfolding get_inode
  dir_stat_counts path d = counted (get_inode path d)
