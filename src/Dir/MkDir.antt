-- ===== src/Dir/MkDir.antt =====
-- What MkDir and RemoveInode leave of a directory and of the one that lists it (mkdir.go, inode.go).
use fair_os_dfs.Prelude.{
  ℕ, ◌≡◌, refl, subst, Bool, true, false, ◌&&◌, ◌||◌, [], ◌++◌, some, ltb, length, arith,
}
use fair_os_dfs.Prelude.Result.{Result, ok}
use fair_os_dfs.Prelude.Text.{
  codes, longer_differs, text_eq_swap, Text, text_eq, text_eq_refl, has_prefix,
}
use fair_os_dfs.Prelude.Filepath.{dir, base}
use fair_os_dfs.Prelude.Map.{find, assign, find-assign}
use fair_os_dfs.Utils.Paths.{path_separator, combine_path_and_file}
use fair_os_dfs.Dir.{
  Inode, index_file_name, Backend, err_invalid_directory_name, err_too_long_directory_name,
  Directory, get_dir_from_directory_map, entry_name, total_path, get_inode,
  remove_from_directory_map, added, add_entry_to_dir,
}
use fair_os_dfs.Dir.Names.{IsWithout}
use fair_os_dfs.Dir.Entries.{IsBackend, Holds, entered-Holds, remove_entry_from_dir-Holds}
use fair_os_dfs.Dir.Make.{new_inode, mk_dir, removed_path, remove_inode}
use fair_os_dfs.Dir.Made.{
  combine_longer, guarded, absent_first, made_first, set_inode-dir_map, Looked, get_inode-Looked,
  found_inode, added-dir_map,
}

neither : (x y : Bool) → (x || y) ≡ false → (x ≡ false) × (y ≡ false)
neither true y h = ground (arith, h)
neither false y h = (refl, h)

module _ {S : Type 0} {D : Type 0} {E : Type 0} (b : Backend S D E) (laws : IsBackend b) where
  -- Over a backend that reads back an uploaded index file and whose JSON keeps an inode, after
  -- MkDir has succeeded on a path whose parent directory GetInode finds, with an inode that bears
  -- the parent's path, the cache has the new inode under the path of the parent and the base name,
  -- and the parent has, in the cache and in the files, the inode that was found with the name of
  -- the new directory at the end of its names.
  pub mk_dir-Holds :
      (path : Text) (mode now later : ℕ) (inode : Inode) (d d1 d' : Directory S)
      → get_inode b (dir path) d ≡ (ok inode, d1)
      → total_path b inode ≡ dir path
      → mk_dir b path mode now later d ≡ (ok tt, d')
      → (get_dir_from_directory_map (combine_path_and_file (dir path) (base path)) d'
          ≡ some (new_inode (dir path) (base path) mode now))
        × Holds b laws (dir path) (added b (entry_name (base path) false) later inode) d'
  unfolding mk_dir get_dir_from_directory_map add_entry_to_dir
  mk_dir-Holds path mode now later inode d d1 d' got bears h =
      let p = dir path in
      let n = base path in
      let t = combine_path_and_file p n in
      let i = new_inode p n mode now in
      let (named, h1) =
        guarded b (text_eq n [] || has_prefix n path_separator) err_invalid_directory_name _ d d'
          h in
      let (short, h2) = guarded b (ltb 100 (length n)) err_too_long_directory_name _ d d' h1 in
      let (e, d2, absent, h3) =
        absent_first b p n mode now later (get_inode b t d1) d' (rw got at h2) in
      let (d3, made, h4) = made_first b p n later _ d' h3 in
      let (named_p, h5) = guarded b (text_eq p []) err_invalid_directory_name _ d3 d' h4 in
      let (named_n, plain) = neither (text_eq n []) (has_prefix n path_separator) named in
      let differ = longer_differs p t (combine_longer p n named_p named_n plain) in
      let parent1 : find p d1.dir_map ≡ some inode =
        subst (Looked b p d) got (get_inode-Looked b p d) in
      let same : d2.dir_map ≡ d1.dir_map = subst (Looked b t d1) absent (get_inode-Looked b t d1) in
      let map3 : d3.dir_map ≡ assign t i d2.dir_map = set_inode-dir_map b i d2 d3 made in
      let parent3 : find p d3.dir_map ≡ some inode =
        rw (map3, find-assign t p i d2.dir_map, text_eq_swap p t differ, same) parent1 in
      let new3 : find t d3.dir_map ≡ some i =
        rw (map3, find-assign t t i d2.dir_map, text_eq_refl t) in
      let x = added b (entry_name n false) later inode in
      (
        rw
            (
              added-dir_map b p n later inode d3 d' parent3 bears h4,
              find-assign p t x (assign p x d3.dir_map),
              differ,
              find-assign p t x d3.dir_map,
              differ,
            )
            new3,
        entered-Holds b laws p n false later inode d3 d3 d' (found_inode b p inode d3 parent3) bears
            h4,
      )

  -- Over a backend that reads back an uploaded index file and whose JSON keeps an inode, when
  -- RemoveInode succeeds on a directory that is not the root and whose index file is removed, it
  -- is the directory above the parent, found with an inode that bears its path, that has in the
  -- cache and in the files an inode with its metadata but for the new modification time, whose
  -- names are exactly those that it had and that are not _D_ and the base name of the removed
  -- directory.
  pub remove_inode-Holds :
      (rm_file : Text → S → Result E (Unit {0}) × S) (path : Text) (now : ℕ) (files : S)
      (inode : Inode) (d d1 d' : Directory S)
      → rm_file (combine_path_and_file (removed_path b rm_file path) index_file_name) d.files
        ≡ (ok tt, files)
      → (text_eq (dir path) []
          || text_eq (dir path) path_separator
            && text_eq (removed_path b rm_file path) path_separator)
        ≡ false
      → get_inode b
          (dir (dir path))
          (remove_from_directory_map (removed_path b rm_file path) (record d { files = files }))
        ≡ (ok inode, d1)
      → total_path b inode ≡ dir (dir path)
      → remove_inode b rm_file path now d ≡ (ok tt, d')
      → (after : Inode) × IsWithout
          (codes "_D_" ++ base (removed_path b rm_file path))
          now
          inode
          after
        × Holds b laws (dir (dir path)) after d'
  unfolding remove_inode
  remove_inode-Holds rm_file path now files inode d d1 d' gone below got bears h =
      remove_entry_from_dir-Holds b laws (dir (dir path)) (base (removed_path b rm_file path)) false
        now inode
        (remove_from_directory_map (removed_path b rm_file path) (record d { files = files })) d1 d'
        got bears (rw (remove_inode, gone, below) at h)
