-- ===== src/Dir/Make.antt =====
-- pkg/dir: making directories (mkdir.go), and RemoveInode (inode.go), which takes one away.
-- `rm_file` is IFile.RmFile.
use fair_os_dfs.Prelude.{ℕ, ◌+◌, false, ◌&&◌, ◌||◌, [], ltb, ◌==◌, if◌then◌else◌, length}
use fair_os_dfs.Prelude.Result.{Result, ok, err}
use fair_os_dfs.Prelude.Text.{Text, text_eq, has_prefix}
use fair_os_dfs.Prelude.Filepath.{dir, base}
use fair_os_dfs.Utils.Paths.{path_separator, combine_path_and_file}
use fair_os_dfs.Dir.{
  Inode, index_file_name, s_ifdir, Backend, err_directory_not_present, err_invalid_directory_name,
  err_too_long_directory_name, err_directory_already_present, failed, Directory, Answer,
  add_to_directory_map, remove_from_directory_map, set_inode, get_inode, add_entry_to_dir,
  remove_entry_from_dir,
}

-- MetaVersion, nameLength and defaultMode (0700)
abbrev meta_version : ℕ
meta_version = 2

abbrev name_length : ℕ
name_length = 100

abbrev default_mode : ℕ
default_mode = 448

-- the inode of MkDir, with the mode S_IFDIR | defaultMode for 0
abbrev pub new_inode : Text → Text → ℕ → ℕ → Inode
new_inode parent name mode now = record {
  meta = record {
    version = meta_version;
    path = parent;
    name = name;
    mode = if mode == 0 then s_ifdir + default_mode else mode;
    creation_time = now;
    modification_time = now;
    access_time = now;
  };
  file_or_dir_names = [];
}

-- the inode of MkRootDir
abbrev root_inode : ℕ → Inode
root_inode now = record {
  meta = record {
    version = meta_version;
    path = [];
    name = path_separator;
    mode = 0;
    creation_time = now;
    modification_time = now;
    access_time = now;
  };
  file_or_dir_names = [];
}

module _ {S : Type 0} {D : Type 0} {E : Type 0} (b : Backend S D E) where
  abbrev pub after_made : Text → Text → ℕ → Answer b (Unit {0}) → Answer b (Unit {0})
  after_made parent name later (err e, d) = (err e, d)
  after_made parent name later (ok t, d) = add_entry_to_dir b parent name false later d

  abbrev pub after_absent : Text → Text → ℕ → ℕ → ℕ → Answer b Inode → Answer b (Unit {0})
  after_absent parent name mode now later (ok inode, d) = (err err_directory_already_present, d)
  after_absent parent name mode now later (err e, d) =
      after_made parent name later (set_inode b (new_inode parent name mode now) d)

  abbrev pub after_parent : Text → Text → ℕ → ℕ → ℕ → Answer b Inode → Answer b (Unit {0})
  after_parent parent name mode now later (err e, d) = (err err_directory_not_present, d)
  after_parent parent name mode now later (ok inode, d) =
      after_absent parent name mode now later (get_inode b (combine_path_and_file parent name) d)

  -- func (d *Directory) MkDir, at the time `now`, with the entry added at the time `later`
  unfoldable pub mk_dir : Text → ℕ → ℕ → ℕ → Directory S → Answer b (Unit {0})
  mk_dir path mode now later d =
      if text_eq (base path) [] || has_prefix (base path) path_separator
      then (err err_invalid_directory_name, d)
      else if ltb name_length (length (base path))
      then (err err_too_long_directory_name, d)
      else after_parent (dir path) (base path) mode now later (get_inode b (dir path) d)

  -- func (d *Directory) MkRootDir
  unfoldable pub mk_root_dir : ℕ → Directory S → Answer b (Unit {0})
  mk_root_dir now d = set_inode b (root_inode now) d

  abbrev root_loaded : Answer b Inode → Answer b (Unit {0})
  root_loaded (err e, d) = (err e, d)
  root_loaded (ok inode, d) = (ok tt, add_to_directory_map path_separator inode d)

  -- func (d *Directory) AddRootDir
  unfoldable pub add_root_dir : Directory S → Answer b (Unit {0})
  add_root_dir d = root_loaded (get_inode b (combine_path_and_file path_separator []) d)

  module _ (rm_file : Text → S → Result E (Unit {0}) × S) where
    -- the directory's path, as RemoveInode puts it together
    abbrev pub removed_path : Text → Text
    removed_path path = combine_path_and_file (dir path) (
        if text_eq (dir path) path_separator && text_eq (base path) path_separator
        then []
        else base path)

    abbrev after_rm : Text → ℕ → Result E (Unit {0}) × S → Directory S → Answer b (Unit {0})
    after_rm path now (err e, files) d = (err (failed e), record d { files = files })
    after_rm path now (ok t, files) d =
        let d' = remove_from_directory_map (removed_path path) (record d { files = files }) in
        if text_eq (dir path) []
          || text_eq (dir path) path_separator && text_eq (removed_path path) path_separator
        then (ok tt, d')
        else remove_entry_from_dir b (dir (dir path)) (base (removed_path path)) false now d'

    -- func (d *Directory) RemoveInode, at the time `now`
    unfoldable pub remove_inode : Text → ℕ → Directory S → Answer b (Unit {0})
    remove_inode path now d =
        after_rm path now
          (rm_file (combine_path_and_file (removed_path path) index_file_name) d.files) d
