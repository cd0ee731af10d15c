-- ===== src/File/Meta/Removed.antt =====
-- Removing a file (pkg/file/rm.go) and changing its mode (chmod.go), as GetInode sees it afterwards.
use fair_os_dfs.Prelude.{
  ℕ, ◌≡◌, inl, inr, refl, sym, ap, ◌∙◌, subst, false, List, [], ◌∷◌, Option, none, some, Bool-cases,
  bit_or, ◌==◌, ==_refl,
}
use fair_os_dfs.Prelude.Result.{Result, ok, err}
use fair_os_dfs.Prelude.Text.{Text, text_eq, text_eq_refl}
use fair_os_dfs.Prelude.Map.{find, find-assign, find-delete}
use fair_os_dfs.Utils.Paths.{combine_path_and_file}
use fair_os_dfs.Collection.Manifests.{deleted_feed_magic_word}
use fair_os_dfs.File.Meta.{
  MetaData, BlockInfo, s_ifreg, Backend, FileError, err_file_not_found, err_deleted_feed,
  err_unknown_feed, err_read_only_feed, failed, File, add_to_file_map, remove_from_file_map,
  meta_path, Answer, as_failed, get_inode, get_meta_from_file_name, update_meta,
}
use fair_os_dfs.File.Meta.Modify.{
  delete_blocks, delete_inode, rm_meta, rm_blocks, rm_blob, rm_found, rm_file, chmod_found, chmod,
}
use fair_os_dfs.File.Meta.Feeds.{IsBackend, get_inode-same, get_inode-frame, get_inode-mapped}
use fair_os_dfs.File.Meta.Renamed.{not_done, deleted-Gone}

module _ {S : Type 0} {E : Type 0} (b : Backend S E) (laws : IsBackend b) where
  -- No feed changes when blobs are deleted.
  delete_blocks-feeds :
      (blocks : List BlockInfo) (s : S) (t : Text)
      → b.feed_data t (delete_blocks b blocks s).1 ≡ b.feed_data t s
  unfolding delete_blocks
  delete_blocks-feeds [] s t = refl
  delete_blocks-feeds (block ∷ blocks) s t =
      deleted (b.delete_reference block.reference s) refl
        (delete_blocks-feeds blocks (b.delete_reference block.reference s).1 t)
    where
      deleted :
          (r : Result E (Unit {0}) × S)
          → b.delete_reference block.reference s ≡ r
          → b.feed_data t (delete_blocks b blocks (b.delete_reference block.reference s).1).1
            ≡ b.feed_data t (b.delete_reference block.reference s).1
          → b.feed_data t (delete_blocks b (block ∷ blocks) s).1 ≡ b.feed_data t s
      deleted (err e, s1) q ih = rw (delete_blocks, q) (laws.delete-data block.reference s t)
      deleted (ok x, s1) q ih = rw (delete_blocks, q) (ih ∙ laws.delete-data block.reference s t)

  delete_inode-feeds :
      (address : Text) (blocks : List BlockInfo) (s : S) (t : Text)
      → b.feed_data t (delete_inode b address blocks s).1 ≡ b.feed_data t s
  delete_inode-feeds address blocks s t = deleted (b.delete_reference address s) refl
    where
      deleted :
          (r : Result E (Unit {0}) × S)
          → b.delete_reference address s ≡ r
          → b.feed_data t (delete_inode b address blocks s).1 ≡ b.feed_data t s
      deleted (err e, s1) q = rw (delete_inode, q) (laws.delete-data address s t)
      deleted (ok x, s1) q =
          rw (delete_inode, q)
            (delete_blocks-feeds blocks (b.delete_reference address s).1 t
              ∙ laws.delete-data address s t)

  -- The file is gone and the others are as before.
  abbrev pub RemovedFrom : Text → File S → File S → Type 0
  RemovedFrom path f f' =
      ((get_inode b path f').0 ≡ none)
      × (get_meta_from_file_name b path f'.outside ≡ err err_deleted_feed)
      × ((k : Text) → text_eq path k ≡ false → (get_inode b k f').0 ≡ (get_inode b k f).0)

  module _ (pod_file : Text) (f f' : File S) where
    abbrev total : Text
    total = combine_path_and_file pod_file []

    written :
        (f1 : File S) (s1 s2 : S)
        → f1.outside ≡ f.outside
        → ((k : Text) → text_eq total k ≡ false → find k f1.file_map ≡ find k f.file_map)
        → ((t : Text) → b.feed_data t s1 ≡ b.feed_data t f1.outside)
        → b.update_feed (b.hash_string total) deleted_feed_magic_word s1 ≡ (ok tt, s2)
        → RemovedFrom total f (remove_from_file_map total (record f1 { outside = s2 }))
    unfolding remove_from_file_map
    written f1 s1 s2 same frame feeds q =
        let after : File S = remove_from_file_map total (record f1 { outside = s2 }) in
        let fed_with = laws.update-data (b.hash_string total) deleted_feed_magic_word s1 s2 q in
        let (none_left, deleted) =
          deleted-Gone b laws total after
            (find-delete total total f1.file_map ∙ rw (text_eq_refl total) refl)
            (fed_with (b.hash_string total) ∙ rw (text_eq_refl (b.hash_string total)) refl) in
        (
          none_left,
          deleted,
          λ k apart.
              get_inode-same b k f after
                (find-delete total k f1.file_map ∙ rw apart (frame k apart))
                (fed_with (b.hash_string k)
                  ∙ rw (laws.hash-apart total k apart)
                      (feeds (b.hash_string k) ∙ ap (b.feed_data (b.hash_string k)) same)),
        )

    -- Over a backend in which a feed that was written has the data and others stay, whose JSON
    -- keeps the metadata and whose hashes differ for paths that differ, and in which deleting a
    -- blob changes no feed, after RmFile has succeeded the path has no metadata in the map and a
    -- deleted feed, and GetInode gives every other path what it gave before.
    pub rm_file-get_inode : rm_file b pod_file f ≡ (ok tt, f') → RemovedFrom total f f'
    unfolding rm_file
    rm_file-get_inode h = looked (get_inode b total f) refl h
      where
        fed :
            (f1 : File S) (s1 : S)
            → f1.outside ≡ f.outside
            → ((k : Text) → text_eq total k ≡ false → find k f1.file_map ≡ find k f.file_map)
            → ((t : Text) → b.feed_data t s1 ≡ b.feed_data t f1.outside)
            → (u : Result E (Unit {0}) × S)
            → b.update_feed (b.hash_string total) deleted_feed_magic_word s1 ≡ u
            → rm_meta b total (ok tt, s1) f1 ≡ (ok tt, f')
            → RemovedFrom total f f'
        fed f1 s1 same frame feeds (err e, s2) q h =
            not_done b laws (failed e) tt _ f' (rw (rm_meta, q) at h)
        fed f1 s1 same frame feeds (ok x, s2) q h =
            let s' : S = (b.update_feed (b.hash_string total) deleted_feed_magic_word s1).1 in
            let there : (ok tt, remove_from_file_map total (record f1 { outside = s' }))
                ≡ (ok tt, f') =
              rw (rm_meta, q) at h in
            subst (RemovedFrom total f) (ap (λ (x : Answer b (Unit {0})). x.1) there)
              (written f1 s1 s' same frame feeds (q ∙ ap (λ x. (ok tt, x.1)) (sym q)))

        deleted :
            (f1 : File S) (meta : MetaData) (blocks : List BlockInfo)
            → f1.outside ≡ f.outside
            → ((k : Text) → text_eq total k ≡ false → find k f1.file_map ≡ find k f.file_map)
            → (u : Result E (Unit {0}) × S)
            → delete_inode b meta.inode_address blocks f1.outside ≡ u
            → rm_meta b total u f1 ≡ (ok tt, f')
            → RemovedFrom total f f'
        deleted f1 meta blocks same frame (err e, s1) q h = not_done b laws (failed e) tt _ f' h
        deleted f1 meta blocks same frame (ok x, s1) q h =
            fed f1 s1 same frame
              (λ t.
                ap (λ x. b.feed_data t x.1) (sym q)
                ∙ delete_inode-feeds meta.inode_address blocks f1.outside t)
              (b.update_feed (b.hash_string total) deleted_feed_magic_word s1) refl h

        parsed :
            (f1 : File S) (meta : MetaData)
            → f1.outside ≡ f.outside
            → ((k : Text) → text_eq total k ≡ false → find k f1.file_map ≡ find k f.file_map)
            → (r : Result E (List BlockInfo)) → rm_blocks b total meta r f1 ≡ (ok tt, f')
            → RemovedFrom total f f'
        parsed f1 meta same frame (err e) h = not_done b laws (failed e) tt f1 f' h
        parsed f1 meta same frame (ok blocks) h =
            deleted f1 meta blocks same frame (delete_inode b meta.inode_address blocks f1.outside)
              refl h

        downloaded :
            (f1 : File S) (meta : MetaData)
            → f1.outside ≡ f.outside
            → ((k : Text) → text_eq total k ≡ false → find k f1.file_map ≡ find k f.file_map)
            → (r : Result E Text) → rm_blob b total meta r f1 ≡ (ok tt, f')
            → RemovedFrom total f f'
        downloaded f1 meta same frame (err e) h = not_done b laws (failed e) tt f1 f' h
        downloaded f1 meta same frame (ok bytes) h =
            parsed f1 meta same frame (b.unmarshal_inode bytes) h

        looked :
            (a : Option MetaData × File S)
            → get_inode b total f ≡ a
            → rm_found b total a ≡ (ok tt, f')
            → RemovedFrom total f f'
        looked (none, f1) r h = not_done b laws err_file_not_found tt f1 f' h
        looked (some meta, f1) r h =
            let (outside, frame) = get_inode-frame b total f in
            downloaded f1 meta (sym (ap (λ x. x.1.outside) r) ∙ outside)
              (λ k apart. ap (λ x. find k x.1.file_map) (sym r) ∙ frame k apart)
              (b.download_blob meta.inode_address f1.outside) h

module _ {S : Type 0} {E : Type 0} (b : Backend S E) where
  module _ (pod_file : Text) (mode now : ℕ) (e : E) (f f' : File S) where
    abbrev IsFailed : Result (FileError E) (Unit {0}) → Type 0
    IsFailed (ok t) = ⊥
    IsFailed (err (failed e)) = Unit
    IsFailed (err err_file_not_found) = ⊥
    IsFailed (err err_deleted_feed) = ⊥
    IsFailed (err err_unknown_feed) = ⊥
    IsFailed (err err_read_only_feed) = ⊥

    answer-IsFailed :
        (r : Result (FileError E) (Unit {0})) (f1 : File S)
        → ◌≡◌ {A = Answer b (Unit {0})} (r, f1) (err (failed e), f')
        → IsFailed r
    answer-IsFailed r f1 h = subst IsFailed (sym (ap (λ x. x.0) h)) tt

    abbrev path : Text
    path = combine_path_and_file pod_file []

    abbrev changed : MetaData → MetaData
    changed meta = record meta { mode = bit_or s_ifreg mode; access_time = now }

    -- The second call finds the changed mode in the map.
    changed_again :
        (now' : ℕ) (meta : MetaData) (f1 : File S) (s : S)
        → b.read_only ≡ false
        → chmod b pod_file mode now'
            (record (add_to_file_map path (changed meta) f1) { outside = s })
          ≡ (ok tt, record (add_to_file_map path (changed meta) f1) { outside = s })
    unfolding chmod add_to_file_map
    changed_again now' meta f1 s writable =
        let f2 : File S = record (add_to_file_map path (changed meta) f1) { outside = s } in
        let mapped =
          get_inode-mapped b path f2 (changed meta)
            (find-assign path path (changed meta) f1.file_map ∙ rw (text_eq_refl path) refl) in
        rw (chmod, writable, mapped, ==_refl (bit_or s_ifreg mode)) refl

    -- After a Chmod of a file that failed with an error of a call, the same Chmod at any time
    -- succeeds and changes nothing, in the map or outside.
    pub chmod_failed :
        (now' : ℕ)
        → chmod b pod_file mode now f ≡ (err (failed e), f')
        → chmod b pod_file mode now' f' ≡ (ok tt, f')
    unfolding chmod update_meta
    chmod_failed now' h = elim (Bool-cases b.read_only) [
      | inl q ↦ absurd (answer-IsFailed (err err_read_only_feed) f (rw (chmod, q) at h))
      | inr q ↦ looked q (get_inode b path f) (rw (chmod, q) at h)
    ]
      where
        updated :
            (meta : MetaData) (f1 : File S)
            → b.read_only ≡ false
            → (u : Result E (Unit {0}) × S)
            → as_failed b u (add_to_file_map path (changed meta) f1) ≡ (err (failed e), f')
            → chmod b pod_file mode now' f' ≡ (ok tt, f')
        updated meta f1 writable (ok t, s) h = absurd (answer-IsFailed (ok tt) _ h)
        updated meta f1 writable (err e', s) h =
            subst (λ x. chmod b pod_file mode now' x ≡ (ok tt, x))
              (ap (λ (x : Answer b (Unit {0})). x.1) h) (changed_again now' meta f1 s writable)

        looked :
            b.read_only ≡ false
            → (a : Option MetaData × File S) → chmod_found b path mode now a ≡ (err (failed e), f')
            → chmod b pod_file mode now' f' ≡ (ok tt, f')
        looked writable (none, f1) h = absurd (answer-IsFailed (err err_file_not_found) f1 h)
        looked writable (some meta, f1) h = elim (Bool-cases (meta.mode == bit_or s_ifreg mode)) [
          | inl q ↦ absurd (answer-IsFailed (ok tt) f1 (rw (chmod_found, q) at h))
          | inr q ↦
              updated meta f1 writable
                (b.update_feed (b.hash_string (meta_path (changed meta))) (b.marshal (changed meta))
                  f1.outside)
                (rw (chmod_found, q) at h)
        ]
