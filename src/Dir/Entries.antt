-- ===== src/Dir/Entries.antt =====
-- What adding and removing an entry leaves in the cache and in the files of a directory.
use fair_os_dfs.Prelude.{
  ℕ, ◌≡◌, inl, inr, refl, sym, ap, ◌∙◌, false, Bool, [], ◌∷◌, ◌++◌, some, arith, Bool-cases,
  if◌then◌else◌,
}
use fair_os_dfs.Prelude.Result.{Result, ok, err, Result-cases}
use fair_os_dfs.Prelude.Text.{codes, text_eq, text_eq_refl}
use fair_os_dfs.Prelude.Map.{find, find-assign}
use fair_os_dfs.Dir.Names.{IsWithout, removed-IsWithout, without_name-append}
use fair_os_dfs.Utils.Paths.{combine_path_and_file}
use fair_os_dfs.Dir.{
  Text, Inode, index_file_name, Backend, DirError, err_invalid_directory_name, failed, Directory,
  add_to_directory_map, remove_all_from_directory_map, get_dir_from_directory_map, entry_name,
  without_name, unmarshal_inode, total_path, set_inode, get_inode, added, removed, add_entry_to_dir,
  remove_entry_from_dir, err_invalid_file_or_directory_name,
}

-- What the directories rely on: an index file that was uploaded is read back, and JSON keeps an
-- inode and is never the word that marks a deleted feed.
pub record IsBackend {S : Type 0} {D : Type 0} {E : Type 0} (b : Backend S D E) : Type 0 where
  pub download-upload :
      (p : Text) (x : D) (s : S)
      → (b.upload_index p x s).0 ≡ ok tt
      → b.download (combine_path_and_file p index_file_name) (b.upload_index p x s).1 ≡ ok x
  pub unmarshal-marshal : (i : Inode) → b.unmarshal (b.marshal i) ≡ ok i
  pub marshal_not_magic : (i : Inode) → b.is_deleted_magic (b.marshal i) ≡ false

module _ {S : Type 0} {D : Type 0} {E : Type 0} (b : Backend S D E) (laws : IsBackend b) where
  -- The directory's inode is in the cache, and is read from the files when the cache is empty.
  pub record Holds (path : Text) (inode : Inode) (d : Directory S) : Type 0 where
    pub cached : get_dir_from_directory_map path d ≡ some inode
    pub stored : (get_inode b path (remove_all_from_directory_map d)).0 ≡ ok inode

  refused : (e : DirError E) (r : Result (DirError E) (Unit {0})) → r ≡ err e → r ≡ ok tt → ⊥
  refused e r h g = ground arith

  get_inode_stored :
      (path : Text) (inode : Inode) (d : Directory S)
      → b.download (combine_path_and_file path index_file_name) d.files ≡ ok (b.marshal inode)
      → (get_inode b path (remove_all_from_directory_map d)).0 ≡ ok inode
  unfolding get_inode get_dir_from_directory_map remove_all_from_directory_map unmarshal_inode find
  get_inode_stored path inode d h = rw (
    get_inode,
    get_dir_from_directory_map,
    remove_all_from_directory_map,
    find,
    h,
    unmarshal_inode,
    laws.marshal_not_magic inode,
    laws.unmarshal-marshal inode,
  )

  set_inode-Holds :
      (inode : Inode) (d d' : Directory S)
      → set_inode b inode d ≡ (ok tt, d')
      → Holds (total_path b inode) inode d'
  unfolding set_inode add_to_directory_map get_dir_from_directory_map remove_all_from_directory_map
  set_inode-Holds inode d d' h =
      let p = total_path b inode in
      let written : Directory S = record d {
        files = (b.upload_index p (b.marshal inode) d.files).1;
      } in
      elim (Result-cases (b.upload_index p (b.marshal inode) d.files).0) [
        | inl (t, e) ↦
            let same = ap (λ x. x.1) (rw (set_inode, e) at h) in
            rw (sym same) (record {
              cached = rw (find-assign p p inode d.dir_map, text_eq_refl p);
              stored =
                  get_inode_stored p inode written
                    (laws.download-upload p (b.marshal inode) d.files e);
            })
        | inr (e', e) ↦
            absurd (refused (failed e') (ok tt) (sym (ap (λ x. x.0) (rw (set_inode, e) at h))) refl)
      ]

  -- AddEntryToDir and RemoveEntryFromDir change the inode that GetInode finds, and write it.
  changed-Holds :
      (parent : Text) (change : Inode → Inode) (inode : Inode) (d d' : Directory S)
      → total_path b (change inode) ≡ parent
      → set_inode b (change inode) (add_to_directory_map parent (change inode) d) ≡ (ok tt, d')
      → Holds parent (change inode) d'
  changed-Holds parent change inode d d' e h =
      rw (sym e)
        (set_inode-Holds (change inode) (add_to_directory_map parent (change inode) d) d' h)

  -- The inode that AddEntryToDir leaves, by its own steps.
  pub entered-Holds :
      (parent item : Text) (is_file : Bool) (now : ℕ) (inode : Inode) (d d1 d' : Directory S)
      → get_inode b parent d ≡ (ok inode, d1)
      → total_path b inode ≡ parent
      → add_entry_to_dir b parent item is_file now d ≡ (ok tt, d')
      → Holds parent (added b (entry_name item is_file) now inode) d'
  unfolding add_entry_to_dir
  entered-Holds parent item is_file now inode d d1 d' got path h =
      elim (Bool-cases (text_eq parent [])) [
        | inl e ↦ absurd (
            refused err_invalid_directory_name (ok tt)
              (sym (ap (λ x. x.0) (rw (add_entry_to_dir, e) at h))) refl)
        | inr e ↦ elim (Bool-cases (text_eq item [])) [
          | inl g ↦ absurd (
              refused err_invalid_file_or_directory_name (ok tt)
                (sym (ap (λ x. x.0) (rw (add_entry_to_dir, e, g) at h))) refl)
          | inr g ↦
              changed-Holds parent (added b (entry_name item is_file) now) inode d1 d' path
                (rw (add_entry_to_dir, e, g, got) at h)
        ]
      ]

  -- Over a backend that reads back an uploaded index file and whose JSON keeps an inode, after
  -- AddEntryToDir has succeeded on a directory whose inode bears its path, the directory has, in
  -- the cache and in the files, the inode it had with the item, behind _F_ for a file and _D_ for
  -- a directory, at the end of its names, and with the new modification time.
  pub add_entry_to_dir-Holds :
      (parent item : Text) (is_file : Bool) (now : ℕ) (inode : Inode) (d d1 d' : Directory S)
      → get_inode b parent d ≡ (ok inode, d1)
      → total_path b inode ≡ parent
      → add_entry_to_dir b parent item is_file now d ≡ (ok tt, d')
      → Holds parent
          (record {
            meta = record inode.meta { modification_time = now };
            file_or_dir_names =
                inode.file_or_dir_names ++ (codes (if is_file then "_F_" else "_D_") ++ item) ∷ [];
          })
          d'
  add_entry_to_dir-Holds = entered-Holds

  -- The inode that RemoveEntryFromDir leaves, by its own steps.
  pub left-Holds :
      (parent item : Text) (is_file : Bool) (now : ℕ) (inode : Inode) (d d1 d' : Directory S)
      → get_inode b parent d ≡ (ok inode, d1)
      → total_path b inode ≡ parent
      → remove_entry_from_dir b parent item is_file now d ≡ (ok tt, d')
      → Holds parent (removed b (entry_name item is_file) now inode) d'
  unfolding remove_entry_from_dir
  left-Holds parent item is_file now inode d d1 d' got path h =
      elim (Bool-cases (text_eq parent [])) [
        | inl e ↦ absurd (
            refused err_invalid_directory_name (ok tt)
              (sym (ap (λ x. x.0) (rw (remove_entry_from_dir, e) at h))) refl)
        | inr e ↦ elim (Bool-cases (text_eq item [])) [
          | inl g ↦ absurd (
              refused err_invalid_file_or_directory_name (ok tt)
                (sym (ap (λ x. x.0) (rw (remove_entry_from_dir, e, g) at h))) refl)
          | inr g ↦
              changed-Holds parent (removed b (entry_name item is_file) now) inode d1 d' path
                (rw (remove_entry_from_dir, e, g, got) at h)
        ]
      ]

  -- Over a backend that reads back an uploaded index file and whose JSON keeps an inode, after
  -- RemoveEntryFromDir has succeeded on a directory whose inode bears its path, the directory has,
  -- in the cache and in the files, an inode with the metadata it had but for the new modification
  -- time, whose names are exactly those that it had and that are not the item behind _F_ for a
  -- file and _D_ for a directory.
  pub remove_entry_from_dir-Holds :
      (parent item : Text) (is_file : Bool) (now : ℕ) (inode : Inode) (d d1 d' : Directory S)
      → get_inode b parent d ≡ (ok inode, d1)
      → total_path b inode ≡ parent
      → remove_entry_from_dir b parent item is_file now d ≡ (ok tt, d')
      → (after : Inode) × IsWithout
          (codes (if is_file then "_F_" else "_D_") ++ item)
          now
          inode
          after
        × Holds parent after d'
  remove_entry_from_dir-Holds parent item is_file now inode d d1 d' got path h = (
    removed b (entry_name item is_file) now inode,
    removed-IsWithout b (entry_name item is_file) now inode,
    left-Holds parent item is_file now inode d d1 d' got path h,
  )

  -- Over a backend that reads back an uploaded index file and whose JSON keeps an inode, adding an
  -- entry that a directory does not have to a directory whose inode bears its path, and then
  -- removing it, both with success, leaves the directory, in the cache and in the files, with the
  -- names that it had.
  pub add-remove_entry :
      (parent item : Text) (is_file : Bool) (now later : ℕ) (inode : Inode)
      (d d1 d2 d3 : Directory S)
      → get_inode b parent d ≡ (ok inode, d1)
      → total_path b inode ≡ parent
      → without_name (entry_name item is_file) inode.file_or_dir_names ≡ inode.file_or_dir_names
      → add_entry_to_dir b parent item is_file now d ≡ (ok tt, d2)
      → remove_entry_from_dir b parent item is_file later d2 ≡ (ok tt, d3)
      → Holds parent (record inode { meta = record inode.meta { modification_time = later } }) d3
  unfolding get_inode
  add-remove_entry parent item is_file now later inode d d1 d2 d3 got path absent h g =
      let entry = entry_name item is_file in
      let before = entered-Holds parent item is_file now inode d d1 d2 got path h in
      let found : get_inode b parent d2 ≡ (ok (added b entry now inode), d2) =
        rw (get_inode, before.cached) in
      let names : without_name entry (inode.file_or_dir_names ++ entry ∷ [])
          ≡ inode.file_or_dir_names =
        without_name-append entry inode.file_or_dir_names ∙ absent in
      rw names at
        (left-Holds parent item is_file later (added b entry now inode) d2 d2 d3 found path g)
