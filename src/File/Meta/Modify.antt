-- ===== src/File/Meta/Modify.antt =====
-- Removing a file and changing its mode (pkg/file/rm.go, chmod.go).
use fair_os_dfs.Prelude.{ℕ, List, [], ◌∷◌, Option, none, some, bit_or, ◌==◌, if◌then◌else◌}
use fair_os_dfs.Prelude.Result.{Result, ok, err}
use fair_os_dfs.Prelude.Text.{Text}
use fair_os_dfs.Utils.Paths.{combine_path_and_file}
use fair_os_dfs.Collection.Manifests.{deleted_feed_magic_word}
use fair_os_dfs.File.Meta.{
  MetaData, BlockInfo, s_ifreg, Backend, err_file_not_found, err_read_only_feed, failed, File,
  Answer, add_to_file_map, remove_from_file_map, get_inode, update_meta,
}

module _ {S : Type 0} {E : Type 0} (b : Backend S E) where
  -- the loop of RmFile over the blocks of the inode
  unfoldable pub delete_blocks : List BlockInfo → S → Result E (Unit {0}) × S
  delete_blocks [] s = (ok tt, s)
  delete_blocks (block ∷ blocks) s =
      let next = b.delete_reference block.reference s in
      let rest = delete_blocks blocks next.1 in
      elim next.0 [ err e ↦ (err e, next.1) | ok t ↦ rest ]

  -- the inode's own blob goes first
  abbrev pub delete_inode : Text → List BlockInfo → S → Result E (Unit {0}) × S
  delete_inode address blocks s =
      let (r, s') = b.delete_reference address s in
      elim r [ err e ↦ (err e, s') | ok t ↦ delete_blocks blocks s' ]

  abbrev pub rm_meta : Text → Result E (Unit {0}) × S → File S → Answer b (Unit {0})
  rm_meta file_path (err e, s) f = (err (failed e), record f { outside = s })
  rm_meta file_path (ok t, s) f =
      let (r, s') = b.update_feed (b.hash_string file_path) deleted_feed_magic_word s in
      elim r [
        | err e ↦ (err (failed e), record f { outside = s' })
        | ok t ↦ (ok tt, remove_from_file_map file_path (record f { outside = s' }))
      ]

  abbrev pub rm_blocks : Text → MetaData → Result E (List BlockInfo) → File S → Answer b (Unit {0})
  rm_blocks file_path meta (err e) f = (err (failed e), f)
  rm_blocks file_path meta (ok blocks) f =
      rm_meta file_path (delete_inode meta.inode_address blocks f.outside) f

  abbrev pub rm_blob : Text → MetaData → Result E Text → File S → Answer b (Unit {0})
  rm_blob file_path meta (err e) f = (err (failed e), f)
  rm_blob file_path meta (ok inode_bytes) f =
      rm_blocks file_path meta (b.unmarshal_inode inode_bytes) f

  abbrev pub rm_found : Text → Option MetaData × File S → Answer b (Unit {0})
  rm_found file_path (none, f) = (err err_file_not_found, f)
  rm_found file_path (some meta, f) =
      rm_blob file_path meta (b.download_blob meta.inode_address f.outside) f

  -- func (f *File) RmFile
  unfoldable pub rm_file : Text → File S → Answer b (Unit {0})
  unfolding get_inode remove_from_file_map delete_blocks
  rm_file pod_file f =
      let total = combine_path_and_file pod_file [] in rm_found total (get_inode b total f)

  -- The metadata is changed where the map points to it, before it is written.
  abbrev pub chmod_found : Text → ℕ → ℕ → Option MetaData × File S → Answer b (Unit {0})
  chmod_found total mode now (none, f) = (err err_file_not_found, f)
  chmod_found total mode now (some meta, f) =
      let mode' = bit_or s_ifreg mode in
      let meta' = record meta { mode = mode'; access_time = now } in
      if meta.mode == mode' then (ok tt, f) else update_meta b meta' (add_to_file_map total meta' f)

  -- func (f *File) Chmod, at the time `now`; the file that IsFileAlreadyPresent finds is found again
  unfoldable pub chmod : Text → ℕ → ℕ → File S → Answer b (Unit {0})
  unfolding get_inode update_meta add_to_file_map
  chmod pod_file mode now f =
      let total = combine_path_and_file pod_file [] in
      if b.read_only
      then (err err_read_only_feed, f)
      else chmod_found total mode now (get_inode b total f)
