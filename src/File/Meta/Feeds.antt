-- ===== src/File/Meta/Feeds.antt =====
-- What the operations on a file's metadata (pkg/file/meta.go) write into its feed.
use fair_os_dfs.Prelude.{
  ◌≡◌, inl, inr, refl, ap, ◌∙◌, subst, Bool, true, false, Option, none, some, if◌then◌else◌,
  Bool-cases,
}
use fair_os_dfs.Prelude.Result.{Result, ok, err, err_not_ok}
use fair_os_dfs.Prelude.Text.{Text, text_eq}
use fair_os_dfs.Prelude.Map.{find, find-assign}
use fair_os_dfs.Collection.Manifests.{deleted_feed_magic_word}
use fair_os_dfs.File.Meta.{
  MetaData, Backend, failed, File, get_from_file_map, add_to_file_map, meta_path, Answer, as_failed,
  kept_meta, fed_meta, get_inode, is_present, get_meta_from_file_name, delete_meta, update_meta,
  upload_meta, handle_meta,
}

-- What the package relies on: a feed that was written has the data and the others are as before, no
-- feed changes when a blob is deleted, JSON keeps the metadata and is not the word of a deleted feed,
-- and paths that differ have hashes that differ.
pub record IsBackend {S : Type 0} {E : Type 0} (b : Backend S E) : Type 0 where
  pub update-data :
      (topic d : Text) (s s' : S)
      → b.update_feed topic d s ≡ (ok tt, s')
      → (t : Text) → b.feed_data t s' ≡ (if text_eq topic t then ok d else b.feed_data t s)
  pub create-data :
      (topic d : Text) (s s' : S)
      → b.create_feed topic d s ≡ (ok tt, s')
      → (t : Text) → b.feed_data t s' ≡ (if text_eq topic t then ok d else b.feed_data t s)
  pub delete-data :
      (reference : Text) (s : S) (t : Text)
      → b.feed_data t (b.delete_reference reference s).1 ≡ b.feed_data t s
  pub unmarshal-marshal : (meta : MetaData) → b.unmarshal (b.marshal meta) ≡ ok meta
  pub marshal_not_magic :
      (meta : MetaData) → text_eq (b.marshal meta) deleted_feed_magic_word ≡ false
  pub hash-apart :
      (m n : Text) → text_eq m n ≡ false → text_eq (b.hash_string m) (b.hash_string n) ≡ false

module _ {S : Type 0} {E : Type 0} (b : Backend S E) where
  -- The feed of the topic has the data; the other feeds and the map are as before.
  pub record Fed (topic d : Text) (f f' : File S) : Type 0 where
    pub same_map : f'.file_map ≡ f.file_map
    pub feeds :
        (t : Text)
        → b.feed_data t f'.outside ≡ (if text_eq topic t then ok d else b.feed_data t f.outside)

  -- GetInode of a path sees its entry of the map and its feed.
  pub get_inode-same :
      (k : Text) (f f' : File S)
      → find k f'.file_map ≡ find k f.file_map
      → b.feed_data (b.hash_string k) f'.outside ≡ b.feed_data (b.hash_string k) f.outside
      → (get_inode b k f').0 ≡ (get_inode b k f).0
  unfolding get_inode get_from_file_map
  get_inode-same k f f' map feed = mapped (find k f.file_map) refl
    where
      kept : (r : Result E MetaData) → (kept_meta b k f' r).0 ≡ (kept_meta b k f r).0
      kept (err e) = refl
      kept (ok meta) = refl

      fed : (r : Result E Text) → (fed_meta b k f' r).0 ≡ (fed_meta b k f r).0
      fed (err e) = refl
      fed (ok bytes) = elim (Bool-cases (text_eq bytes deleted_feed_magic_word)) [
        | inl q ↦ rw q refl
        | inr q ↦ rw q (kept (b.unmarshal bytes))
      ]

      mapped :
          (o : Option MetaData) → find k f.file_map ≡ o → (get_inode b k f').0 ≡ (get_inode b k f).0
      mapped (some meta) q = rw (get_inode, map, q) refl
      mapped none q = rw (get_inode, map, q, feed) (fed (b.feed_data (b.hash_string k) f.outside))

  -- GetInode changes the entry of its path only.
  pub get_inode-frame :
      (path : Text) (f : File S)
      → ((get_inode b path f).1.outside ≡ f.outside)
        × ((k : Text)
            → text_eq path k ≡ false
            → find k (get_inode b path f).1.file_map ≡ find k f.file_map)
  unfolding get_inode get_from_file_map add_to_file_map
  get_inode-frame path f = mapped (find path f.file_map) refl
    where
      Frame : Option MetaData × File S → Type 0
      Frame r =
          (r.1.outside ≡ f.outside)
          × ((k : Text) → text_eq path k ≡ false → find k r.1.file_map ≡ find k f.file_map)

      kept : (r : Result E MetaData) → Frame (kept_meta b path f r)
      kept (err e) = (refl, λ k differ. refl)
      kept (ok meta) = (refl, λ k differ. find-assign path k meta f.file_map ∙ rw differ refl)

      fed : (r : Result E Text) → Frame (fed_meta b path f r)
      fed (err e) = (refl, λ k differ. refl)
      fed (ok bytes) = elim (Bool-cases (text_eq bytes deleted_feed_magic_word)) [
        | inl q ↦ rw q (refl, λ k differ. refl)
        | inr q ↦ rw q (kept (b.unmarshal bytes))
      ]

      mapped : (o : Option MetaData) → find path f.file_map ≡ o → Frame (get_inode b path f)
      mapped (some meta) q = rw (get_inode, q) (refl, λ k differ. refl)
      mapped none q = rw (get_inode, q) (fed (b.feed_data (b.hash_string path) f.outside))

  -- What the map has is what GetInode gives.
  pub get_inode-mapped :
      (k : Text) (f : File S) (meta : MetaData)
      → find k f.file_map ≡ some meta
      → get_inode b k f ≡ (some meta, f)
  unfolding get_inode get_from_file_map
  get_inode-mapped k f meta q = rw (get_inode, q) refl

  -- A deleted feed has no metadata.
  pub get_inode-magic :
      (k : Text) (f : File S)
      → find k f.file_map ≡ none
      → b.feed_data (b.hash_string k) f.outside ≡ ok deleted_feed_magic_word
      → (get_inode b k f).0 ≡ none
  unfolding get_inode get_from_file_map text_eq
  get_inode-magic k f q feed = rw (get_inode, q, feed) refl

  module _ (laws : IsBackend b) where
    as_failed-Fed :
        (c : Bool) (topic d : Text) (f f' : File S)
        → as_failed b
            (if c then b.update_feed topic d f.outside else b.create_feed topic d f.outside)
            f
          ≡ (ok tt, f')
        → Fed topic d f f'
    as_failed-Fed true topic d f f' h = done (b.update_feed topic d f.outside) refl h
      where
        done :
            (u : Result E (Unit {0}) × S)
            → b.update_feed topic d f.outside ≡ u
            → as_failed b u f ≡ (ok tt, f')
            → Fed topic d f f'
        done (err e, s) q h =
            absurd (err_not_ok (failed e) tt (ap (λ (x : Answer b (Unit {0})). x.0) h))
        done (ok t, s) q h =
            subst (Fed topic d f) (ap (λ (x : Answer b (Unit {0})). x.1) h)
              (record { same_map = refl; feeds = laws.update-data topic d f.outside s q })
    as_failed-Fed false topic d f f' h = done (b.create_feed topic d f.outside) refl h
      where
        done :
            (u : Result E (Unit {0}) × S)
            → b.create_feed topic d f.outside ≡ u
            → as_failed b u f ≡ (ok tt, f')
            → Fed topic d f f'
        done (err e, s) q h =
            absurd (err_not_ok (failed e) tt (ap (λ (x : Answer b (Unit {0})). x.0) h))
        done (ok t, s) q h =
            subst (Fed topic d f) (ap (λ (x : Answer b (Unit {0})). x.1) h)
              (record { same_map = refl; feeds = laws.create-data topic d f.outside s q })

    pub delete_meta-Fed :
        (meta : MetaData) (f f' : File S)
        → delete_meta b meta f ≡ (ok tt, f')
        → Fed (b.hash_string (meta_path meta)) deleted_feed_magic_word f f'
    unfolding delete_meta
    delete_meta-Fed meta f f' h =
        as_failed-Fed true (b.hash_string (meta_path meta)) deleted_feed_magic_word f f' h

    pub update_meta-Fed :
        (meta : MetaData) (f f' : File S)
        → update_meta b meta f ≡ (ok tt, f')
        → Fed (b.hash_string (meta_path meta)) (b.marshal meta) f f'
    unfolding update_meta
    update_meta-Fed meta f f' h =
        as_failed-Fed true (b.hash_string (meta_path meta)) (b.marshal meta) f f' h

    pub handle_meta-Fed :
        (meta : MetaData) (f f' : File S)
        → handle_meta b meta f ≡ (ok tt, f')
        → Fed (b.hash_string (meta_path meta)) (b.marshal meta) f f'
    unfolding handle_meta update_meta upload_meta
    handle_meta-Fed meta f f' h =
        elim (Bool-cases (is_present b (get_meta_from_file_name b (meta_path meta) f.outside))) [
          | inl q ↦
              as_failed-Fed true (b.hash_string (meta_path meta)) (b.marshal meta) f f'
                (rw (handle_meta, q) at h)
          | inr q ↦
              as_failed-Fed false (b.hash_string (meta_path meta)) (b.marshal meta) f f'
                (rw (handle_meta, q) at h)
        ]
