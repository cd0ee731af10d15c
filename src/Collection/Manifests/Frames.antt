-- ===== src/Collection/Manifests/Frames.antt =====
-- Writing a manifest leaves those of other names as they are (pkg/collection/index.go).
use fair_os_dfs.Prelude.{◌≡◌, refl, ◌∙◌, Bool, true, false, if◌then◌else◌}
use fair_os_dfs.Prelude.Result.{Result, ok, err, err_not_ok}
use fair_os_dfs.Prelude.Text.{Text, text_eq}
use fair_os_dfs.Collection.Manifests.{
  Manifest, IndexError, err_manifest_unmarshall, err_manifest_create, err_no_manifest_found,
  Backend, load_manifest, update_manifest, store_manifest, as_error, update_with, feed_exists,
  store_with, downloaded,
}
use fair_os_dfs.Collection.Manifests.Stored.{IsBackend, clash, as_error-ok}

-- An upload leaves the feeds and the blobs that are there, a feed that is written leaves the other
-- topics, and names that differ have hashes that differ.
pub record IsSeparate {S : Type 0} {D : Type 0} {E : Type 0} (b : Backend S D E) : Type 0 where
  pub upload-feeds :
      (x : D) (s s' : S) (ref : Text)
      → b.upload x s ≡ (ok ref, s')
      → (t : Text) → b.feed_data t s' ≡ b.feed_data t s
  pub upload-blobs :
      (x : D) (s s' : S) (ref : Text)
      → b.upload x s ≡ (ok ref, s')
      → (r : Text) (d : D) → b.download r s ≡ ok d
      → b.download r s' ≡ ok d
  pub update-feeds :
      (topic ref : Text) (s s' : S)
      → b.update_feed topic ref s ≡ (ok tt, s')
      → (t : Text) → text_eq topic t ≡ false
      → b.feed_data t s' ≡ b.feed_data t s
  pub create-feeds :
      (topic ref : Text) (s s' : S)
      → b.create_feed topic ref s ≡ (ok tt, s')
      → (t : Text) → text_eq topic t ≡ false
      → b.feed_data t s' ≡ b.feed_data t s
  pub hash-apart : (m n : Text) → text_eq m n ≡ false → text_eq (b.hash m) (b.hash n) ≡ false

module _ {S : Type 0} {D : Type 0} {E : Type 0} (b : Backend S D E) where
  -- The manifest of that name is still there.
  abbrev pub Kept : S → S → Text → Type 0
  Kept s s' n = (x : Manifest) → load_manifest b n s ≡ ok x → load_manifest b n s' ≡ ok x

  load-Kept :
      (n : Text) (s s' : S)
      → b.feed_data (b.hash n) s' ≡ b.feed_data (b.hash n) s
      → ((r : Text) (d : D) → b.download r s ≡ ok d → b.download r s' ≡ ok d)
      → Kept s s' n
  unfolding load_manifest
  load-Kept n s s' feeds blobs x h = fed (b.feed_data (b.hash n) s) refl h
    where
      got :
          (ref : Text) (d : Result E D)
          → b.feed_data (b.hash n) s ≡ ok ref
          → b.download ref s ≡ d
          → downloaded b d ≡ ok x
          → load_manifest b n s' ≡ ok x
      got ref (err e) f q h = absurd (err_not_ok err_no_manifest_found x h)
      got ref (ok d) f q h = rw (load_manifest, feeds, f, blobs ref d q) h

      fed :
          (f : Result E Text)
          → b.feed_data (b.hash n) s ≡ f
          → (elim f [
            | err e ↦ err err_no_manifest_found
            | ok ref ↦ downloaded b (b.download ref s)
          ])
            ≡ ok x
          → load_manifest b n s' ≡ ok x
      fed (err e) f h = absurd (err_not_ok err_no_manifest_found x h)
      fed (ok ref) f h = got ref (b.download ref s) f refl h

  module _ (laws : IsBackend b) (frames : IsSeparate b) where
    wrote-Kept :
        (c : Bool) (e : IndexError) (m : Manifest) (ref : Text) (s s1 s' : S)
        → b.upload (b.marshal m) s ≡ (ok ref, s1)
        → as_error b e (
            if c
            then b.update_feed (b.hash m.name) ref s1
            else b.create_feed (b.hash m.name) ref s1)
          ≡ (ok tt, s')
        → (n : Text) → text_eq m.name n ≡ false
        → Kept s s' n
    wrote-Kept true e m ref s s1 s' u h n differ =
        let done = as_error-ok b laws e _ s' h in
        let other = frames.hash-apart m.name n differ in
        load-Kept n s s'
          (frames.update-feeds (b.hash m.name) ref s1 s' done (b.hash n) other
            ∙ frames.upload-feeds (b.marshal m) s s1 ref u (b.hash n))
          (λ r d q.
            (laws.data-update (b.hash m.name) ref s1 s' done).1 r
            ∙ frames.upload-blobs (b.marshal m) s s1 ref u r d q)
    wrote-Kept false e m ref s s1 s' u h n differ =
        let done = as_error-ok b laws e _ s' h in
        let other = frames.hash-apart m.name n differ in
        load-Kept n s s'
          (frames.create-feeds (b.hash m.name) ref s1 s' done (b.hash n) other
            ∙ frames.upload-feeds (b.marshal m) s s1 ref u (b.hash n))
          (λ r d q.
            (laws.data-create (b.hash m.name) ref s1 s' done).1 r
            ∙ frames.upload-blobs (b.marshal m) s s1 ref u r d q)

    pub store-Kept :
        (m : Manifest) (s s' : S)
        → store_manifest b m s ≡ (ok tt, s')
        → (n : Text) → text_eq m.name n ≡ false
        → Kept s s' n
    unfolding store_manifest
    store-Kept m s s' h n differ = stored (b.upload (b.marshal m) s) refl h
      where
        stored :
            (u : Result E Text × S)
            → b.upload (b.marshal m) s ≡ u
            → store_with b m.name u ≡ (ok tt, s')
            → Kept s s' n
        stored (err e, s1) u h = clash b laws err_manifest_create s1 s' h
        stored (ok ref, s1) u h =
            wrote-Kept (feed_exists b (b.feed_data (b.hash m.name) s1)) err_manifest_create m ref s
              s1 s' u h n differ

    pub update-Kept :
        (m : Manifest) (s s' : S)
        → update_manifest b m s ≡ (ok tt, s')
        → (n : Text) → text_eq m.name n ≡ false
        → Kept s s' n
    unfolding update_manifest
    update-Kept m s s' h n differ = stored (b.upload (b.marshal m) s) refl h
      where
        stored :
            (u : Result E Text × S)
            → b.upload (b.marshal m) s ≡ u
            → update_with b m.name u ≡ (ok tt, s')
            → Kept s s' n
        stored (err e, s1) u h = clash b laws err_manifest_unmarshall s1 s' h
        stored (ok ref, s1) u h = wrote-Kept true err_manifest_create m ref s s1 s' u h n differ
