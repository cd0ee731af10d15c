-- ===== src/File/Meta/Renamed.antt =====
-- Renaming and removing a file (pkg/file/meta.go, rm.go), as GetInode sees it afterwards.
use mathlib.Core.Option.{some-injective}
use fair_os_dfs.Prelude.{ℕ, ◌≡◌, refl, sym, ap, ◌∙◌, subst, false, Option, none, some}
use fair_os_dfs.Prelude.Result.{ok, err, err_not_ok, ok_injective}
use fair_os_dfs.Prelude.Text.{Text, text_eq, text_eq_refl, text_eq_swap}
use fair_os_dfs.Prelude.Map.{find, find-assign, find-delete}
use fair_os_dfs.Prelude.Filepath
use fair_os_dfs.Utils.Paths.{combine_path_and_file}
use fair_os_dfs.Collection.Manifests.{deleted_feed_magic_word}
use fair_os_dfs.File.Meta.{
  MetaData, Backend, FileError, err_file_not_found, err_deleted_feed, File, get_from_file_map,
  add_to_file_map, remove_from_file_map, meta_path, Answer, get_inode, get_meta_from_file_name,
  delete_meta, handle_meta, then_map, renamed, rename_deleted, rename_found, rename_from_file_name,
}
use fair_os_dfs.File.Meta.Feeds.{
  IsBackend, Fed, get_inode-mapped, get_inode-same, get_inode-frame, get_inode-magic,
  delete_meta-Fed, handle_meta-Fed,
}

module _ {S : Type 0} {E : Type 0} (b : Backend S E) (laws : IsBackend b) where
  pub not_done :
      {A : Type 0} {B : Type 0} (e : FileError E) (a : B) (f f' : File S)
      → ◌≡◌ {A = Answer b B} (err e, f) (ok a, f')
      → A
  not_done e a f f' h = absurd (err_not_ok e a (ap (λ x. x.0) h))

  -- The file of the path is gone, from the map and from its feed.
  abbrev pub Gone : Text → File S → Type 0
  Gone path f =
      ((get_inode b path f).0 ≡ none)
      × (get_meta_from_file_name b path f.outside ≡ err err_deleted_feed)

  pub deleted-Gone :
      (path : Text) (f : File S)
      → find path f.file_map ≡ none
      → b.feed_data (b.hash_string path) f.outside ≡ ok deleted_feed_magic_word
      → Gone path f
  unfolding get_meta_from_file_name text_eq
  deleted-Gone path f q feed =
      (get_inode-magic b path f q feed, rw (get_meta_from_file_name, feed) refl)

  module _ (file_path new_path : Text) (now : ℕ) (p : MetaData) (f f' : File S)
      (at_path : meta_path p ≡ file_path)
      (clean : combine_path_and_file (Filepath.dir new_path) (Filepath.base new_path) ≡ new_path)
      (differ : text_eq file_path new_path ≡ false) where
    abbrev p' : MetaData
    p' = renamed b new_path now p

    -- What GetInode and the feeds say after the three steps behind GetInode.
    abbrev Moved : File S → File S → Type 0
    Moved before after =
        ((get_inode b new_path after).0 ≡ some p')
        × (get_meta_from_file_name b new_path after.outside ≡ ok p')
        × Gone file_path after
        × ((k : Text)
            → text_eq file_path k ≡ false
            → text_eq new_path k ≡ false
            → (get_inode b k after).0 ≡ (get_inode b k before).0)

    steps-Moved :
        (f1 f2 f4 : File S)
        → Fed b (b.hash_string file_path) deleted_feed_magic_word f1 f2
        → Fed b (b.hash_string new_path) (b.marshal p') (remove_from_file_map file_path f2) f4
        → f1.outside ≡ f.outside
        → ((k : Text) → text_eq file_path k ≡ false → find k f1.file_map ≡ find k f.file_map)
        → Moved f (add_to_file_map new_path p' f4)
    unfolding get_inode get_from_file_map add_to_file_map remove_from_file_map
        get_meta_from_file_name
    steps-Moved f1 f2 f4 deleted stored same frame = (
      ap (λ x. x.0)
          (get_inode-mapped b new_path (add_to_file_map new_path p' f4) p'
            (find-assign new_path new_path p' f4.file_map ∙ rw (text_eq_refl new_path) refl)),
      rw
          (
            get_meta_from_file_name,
            stored.feeds (b.hash_string new_path),
            text_eq_refl (b.hash_string new_path),
            laws.marshal_not_magic p',
            laws.unmarshal-marshal p',
          )
          refl,
      deleted-Gone file_path (add_to_file_map new_path p' f4)
          (find-assign new_path file_path p' f4.file_map
            ∙ rw (text_eq_swap file_path new_path differ) (
                ap (find file_path) stored.same_map
                ∙ find-delete file_path file_path f2.file_map
                ∙ rw (text_eq_refl file_path) refl))
          (stored.feeds (b.hash_string file_path)
            ∙ rw (laws.hash-apart new_path file_path (text_eq_swap file_path new_path differ)) (
                deleted.feeds (b.hash_string file_path)
                ∙ rw (text_eq_refl (b.hash_string file_path)) refl)),
      λ k old_apart new_apart.
          get_inode-same b k f (add_to_file_map new_path p' f4)
            (find-assign new_path k p' f4.file_map
              ∙ rw new_apart (
                  ap (find k) stored.same_map
                  ∙ find-delete file_path k f2.file_map
                  ∙ rw old_apart (ap (find k) deleted.same_map ∙ frame k old_apart)))
            (stored.feeds (b.hash_string k)
              ∙ rw (laws.hash-apart new_path k new_apart) (
                  deleted.feeds (b.hash_string k)
                  ∙ rw (laws.hash-apart file_path k old_apart)
                      (ap (b.feed_data (b.hash_string k)) same))),
    )

    -- Over a backend in which a feed that was written has the data and others stay, whose JSON
    -- keeps the metadata and whose hashes differ for paths that differ, after RenameFromFileName
    -- has succeeded on a file that GetInode finds with its own path, for another path that
    -- filepath.Dir and filepath.Base make up again, the metadata has the new name, path and time,
    -- GetInode and the feed give it for the new path, the old path has none and a deleted feed,
    -- and GetInode gives every other path what it gave before.
    pub rename-get_inode :
        (q : MetaData)
        → (get_inode b file_path f).0 ≡ some p
        → rename_from_file_name b file_path new_path now f ≡ (ok q, f')
        → (q ≡ renamed b new_path now p)
          × ((get_inode b new_path f').0 ≡ some q)
          × (get_meta_from_file_name b new_path f'.outside ≡ ok q)
          × ((get_inode b file_path f').0 ≡ none)
          × (get_meta_from_file_name b file_path f'.outside ≡ err err_deleted_feed)
          × ((k : Text)
              → text_eq file_path k ≡ false
              → text_eq new_path k ≡ false
              → (get_inode b k f').0 ≡ (get_inode b k f).0)
    unfolding rename_from_file_name
    rename-get_inode q found h = looked (get_inode b file_path f) refl h
      where
        Goal : Type 0
        Goal =
            (q ≡ renamed b new_path now p)
            × ((get_inode b new_path f').0 ≡ some q)
            × (get_meta_from_file_name b new_path f'.outside ≡ ok q)
            × ((get_inode b file_path f').0 ≡ none)
            × (get_meta_from_file_name b file_path f'.outside ≡ err err_deleted_feed)
            × ((k : Text)
                → text_eq file_path k ≡ false
                → text_eq new_path k ≡ false
                → (get_inode b k f').0 ≡ (get_inode b k f).0)

        handled :
            (f1 f2 : File S)
            → Fed b (b.hash_string file_path) deleted_feed_magic_word f1 f2
            → f1.outside ≡ f.outside
            → ((k : Text) → text_eq file_path k ≡ false → find k f1.file_map ≡ find k f.file_map)
            → (a : Answer b (Unit {0})) → handle_meta b p' (remove_from_file_map file_path f2) ≡ a
            → then_map b new_path p' a ≡ (ok q, f')
            → Goal
        handled f1 f2 deleted same frame (err e, f4) r h = not_done e q f4 f' h
        handled f1 f2 deleted same frame (ok t, f4) r h =
            let stored =
              subst
                (λ x. Fed b (b.hash_string x) (b.marshal p') (remove_from_file_map file_path f2) f4)
                clean (handle_meta-Fed b laws p' (remove_from_file_map file_path f2) f4 r) in
            let (at_new, stored_new, (none_old, deleted_old), others) =
              steps-Moved f1 f2 f4 deleted stored same frame in
            let is_q : p' ≡ q = ok_injective p' q (ap (λ x. x.0) h) in
            let there : add_to_file_map new_path p' f4 ≡ f' =
              ap (λ (x : Answer b MetaData). x.1) h in
            (
              sym is_q,
              subst (λ x. (get_inode b new_path x).0 ≡ some q) there (at_new ∙ ap some is_q),
              subst (λ x. get_meta_from_file_name b new_path x.outside ≡ ok q) there
                  (stored_new ∙ ap (λ x. ok x) is_q),
              subst (λ x. (get_inode b file_path x).0 ≡ none) there none_old,
              subst (λ x. get_meta_from_file_name b file_path x.outside ≡ err err_deleted_feed)
                  there deleted_old,
              λ k old_apart new_apart.
                  subst (λ x. (get_inode b k x).0 ≡ (get_inode b k f).0) there
                    (others k old_apart new_apart),
            )

        removed :
            (f1 : File S)
            → f1.outside ≡ f.outside
            → ((k : Text) → text_eq file_path k ≡ false → find k f1.file_map ≡ find k f.file_map)
            → (a : Answer b (Unit {0})) → delete_meta b p f1 ≡ a
            → rename_deleted b file_path new_path now p a ≡ (ok q, f')
            → Goal
        removed f1 same frame (err e, f2) r h = not_done e q f2 f' h
        removed f1 same frame (ok t, f2) r h =
            handled f1 f2
              (subst (λ x. Fed b (b.hash_string x) deleted_feed_magic_word f1 f2) at_path
                (delete_meta-Fed b laws p f1 f2 r))
              same frame (handle_meta b p' (remove_from_file_map file_path f2)) refl h

        looked :
            (a : Option MetaData × File S)
            → get_inode b file_path f ≡ a
            → rename_found b file_path new_path now a ≡ (ok q, f')
            → Goal
        looked (none, f1) r h = not_done err_file_not_found q f1 f' h
        looked (some p0, f1) r h =
            let same_p : p0 ≡ p = some-injective p0 p (sym (ap (λ x. x.0) r) ∙ found) in
            let (outside, frame) = get_inode-frame b file_path f in
            removed f1 (sym (ap (λ x. x.1.outside) r) ∙ outside)
              (λ k apart. ap (λ x. find k x.1.file_map) (sym r) ∙ frame k apart)
              (delete_meta b p f1) refl
              (subst
                (λ x. rename_deleted b file_path new_path now x (delete_meta b x f1) ≡ (ok q, f'))
                same_p h)
