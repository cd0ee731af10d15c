-- ===== src/Collection/Manifests/Stored.antt =====
-- A manifest that was written is loaded again (pkg/collection/index.go).
use fair_os_dfs.Prelude.{◌≡◌, refl, ap, ◌∙◌, Bool, true, false, List, [], ◌∷◌, arith, if◌then◌else◌}
use fair_os_dfs.Prelude.Result.{Result, ok, err, err_not_ok, ok_injective}
use fair_os_dfs.Prelude.Text.Utf8.{is_utf8}
use fair_os_dfs.Collection.Entries.{Entry}
use fair_os_dfs.Prelude.Text.{Text, text_eq}
use fair_os_dfs.Collection.Manifests.{
  Manifest, IndexError, err_manifest_unmarshall, err_manifest_create, Backend, Answer,
  load_manifest, update_manifest, store_manifest, as_error, update_with, feed_exists, store_with,
  deleted_feed_magic_word, err_no_manifest_found, downloaded, parsed,
}

-- Every entry has a name that is valid UTF-8.
abbrev pub Utf8Names : List Entry → Type 0
Utf8Names [] = Unit
Utf8Names (e ∷ es) = (is_utf8 e.name ≡ true) × Utf8Names es

-- The texts of a manifest are valid UTF-8.
pub record IsUtf8 (m : Manifest) : Type 0 where
  pub name : is_utf8 m.name ≡ true
  pub pod_file : is_utf8 m.pod_file ≡ true
  pub entries : Utf8Names m.entries

-- What the index relies on: a blob that was uploaded is there, under a reference that is not empty and
-- not the word of a deleted feed, under which there is none; a feed that was created or updated has
-- the data, and the blobs stay. JSON keeps a manifest whose texts are valid UTF-8. It replaces what is
-- not, so it always gives such a manifest.
pub record IsBackend {S : Type 0} {D : Type 0} {E : Type 0} (b : Backend S D E) : Type 0 where
  pub download-upload :
      (x : D) (s s' : S) (ref : Text)
      → b.upload x s ≡ (ok ref, s')
      → (b.download ref s' ≡ ok x)
        × (text_eq ref [] ≡ false)
        × (text_eq ref deleted_feed_magic_word ≡ false)
  pub no_magic_blob : (s : S) → (e : E) × (b.download deleted_feed_magic_word s ≡ err e)
  pub data-update :
      (topic ref : Text) (s s' : S)
      → b.update_feed topic ref s ≡ (ok tt, s')
      → (b.feed_data topic s' ≡ ok ref) × ((r : Text) → b.download r s' ≡ b.download r s)
  pub data-create :
      (topic ref : Text) (s s' : S)
      → b.create_feed topic ref s ≡ (ok tt, s')
      → (b.feed_data topic s' ≡ ok ref) × ((r : Text) → b.download r s' ≡ b.download r s)
  pub unmarshal-marshal : (m : Manifest) → IsUtf8 m → b.unmarshal (b.marshal m) ≡ ok m
  pub unmarshal-IsUtf8 : (d : D) (m : Manifest) → b.unmarshal d ≡ ok m → IsUtf8 m

module _ {S : Type 0} {D : Type 0} {E : Type 0} (b : Backend S D E) (laws : IsBackend b) where
  -- The feed of the name has the reference of the manifest's blob.
  pub written-loaded :
      (m : Manifest) (ref : Text) (s : S)
      → b.feed_data (b.hash m.name) s ≡ ok ref
      → b.download ref s ≡ ok (b.marshal m)
      → IsUtf8 m
      → load_manifest b m.name s ≡ ok m
  unfolding load_manifest
  written-loaded m ref s f d text = rw (load_manifest, f, d, laws.unmarshal-marshal m text)

  -- The texts of a manifest that was loaded are valid UTF-8.
  pub loaded-IsUtf8 : (n : Text) (m : Manifest) (s : S) → load_manifest b n s ≡ ok m → IsUtf8 m
  unfolding load_manifest
  loaded-IsUtf8 n m s h = fed (b.feed_data (b.hash n) s) h
    where
      got : (d : Result E D) → downloaded b d ≡ ok m → IsUtf8 m
      got (err e) h = absurd (err_not_ok err_no_manifest_found m h)
      got (ok d) h = parsed_text (b.unmarshal d) refl h
        where
          parsed_text : (r : Result E Manifest) → b.unmarshal d ≡ r → parsed b r ≡ ok m → IsUtf8 m
          parsed_text (err e) q h = absurd (err_not_ok err_manifest_unmarshall m h)
          parsed_text (ok m') q h = laws.unmarshal-IsUtf8 d m (q ∙ ap ok (ok_injective m' m h))

      fed :
          (f : Result E Text)
          → (elim f [
            | err e ↦ err err_no_manifest_found
            | ok ref ↦ downloaded b (b.download ref s)
          ])
            ≡ ok m
          → IsUtf8 m
      fed (err e) h = absurd (err_not_ok err_no_manifest_found m h)
      fed (ok ref) h = got (b.download ref s) h

  -- A call of a feed that succeeds has written it.
  pub record Wrote (topic ref : Text) (s s' : S) : Type 0 where
    pub reads : b.feed_data topic s' ≡ ok ref
    pub blobs : (r : Text) → b.download r s' ≡ b.download r s

  pub clash :
      {A : Type 0} (e : IndexError) (s s' : S)
      → ◌≡◌ {A = Answer b (Unit {0})} (err e, s) (ok tt, s')
      → A
  clash e s s' h = absurd (differ (err e) refl (ap (λ x. x.0) h))
    where
      differ : (r : Result IndexError (Unit {0})) → r ≡ err e → r ≡ ok tt → ⊥
      differ r h g = ground arith

  pub as_error-ok :
      (e : IndexError) (r : Result E (Unit {0}) × S) (s' : S)
      → as_error b e r ≡ (ok tt, s')
      → r ≡ (ok tt, s')
  as_error-ok e (err e', s) s' h = clash e s s' h
  as_error-ok e (ok t, s) s' h = ap (λ (x : Answer b (Unit {0})). (ok tt, x.1)) h

  pub written-Wrote :
      (c : Bool) (e : IndexError) (topic ref : Text) (s s' : S)
      → as_error b e (if c then b.update_feed topic ref s else b.create_feed topic ref s)
        ≡ (ok tt, s')
      → Wrote topic ref s s'
  written-Wrote true e topic ref s s' h =
      let (d, k) = laws.data-update topic ref s s' (as_error-ok e _ s' h) in
      record { reads = d; blobs = k }
  written-Wrote false e topic ref s s' h =
      let (d, k) = laws.data-create topic ref s s' (as_error-ok e _ s' h) in
      record { reads = d; blobs = k }

  pub blob-loaded :
      (m : Manifest) (ref : Text) (s s1 s' : S)
      → b.upload (b.marshal m) s ≡ (ok ref, s1)
      → Wrote (b.hash m.name) ref s1 s'
      → IsUtf8 m
      → load_manifest b m.name s' ≡ ok m
  blob-loaded m ref s s1 s' u w text =
      written-loaded m ref s' w.reads
        (w.blobs ref ∙ (laws.download-upload (b.marshal m) s s1 ref u).0) text

  store-load :
      (m : Manifest) (s s' : S)
      → store_manifest b m s ≡ (ok tt, s')
      → IsUtf8 m
      → load_manifest b m.name s' ≡ ok m
  unfolding store_manifest
  store-load m s s' h text = stored (b.upload (b.marshal m) s) refl h
    where
      stored :
          (u : Result E Text × S)
          → b.upload (b.marshal m) s ≡ u
          → store_with b m.name u ≡ (ok tt, s')
          → load_manifest b m.name s' ≡ ok m
      stored (err e, s1) u h = clash err_manifest_create s1 s' h
      stored (ok ref, s1) u h =
          blob-loaded m ref s s1 s' u
            (written-Wrote (feed_exists b (b.feed_data (b.hash m.name) s1)) err_manifest_create
              (b.hash m.name) ref s1 s' h)
            text

  update-load :
      (m : Manifest) (s s' : S)
      → update_manifest b m s ≡ (ok tt, s')
      → IsUtf8 m
      → load_manifest b m.name s' ≡ ok m
  unfolding update_manifest
  update-load m s s' h text = stored (b.upload (b.marshal m) s) refl h
    where
      stored :
          (u : Result E Text × S)
          → b.upload (b.marshal m) s ≡ u
          → update_with b m.name u ≡ (ok tt, s')
          → load_manifest b m.name s' ≡ ok m
      stored (err e, s1) u h = clash err_manifest_unmarshall s1 s' h
      stored (ok ref, s1) u h =
          blob-loaded m ref s s1 s' u
            (written-Wrote true err_manifest_create (b.hash m.name) ref s1 s' h) text

  -- Over a backend that keeps uploaded blobs under references that are not empty, has the data of
  -- a feed that was written, and whose JSON keeps a manifest whose texts are valid UTF-8 and
  -- always gives such a manifest, a manifest whose texts are valid UTF-8 and that storeManifest or
  -- updateManifest has written with success, in a new feed or an old one, is what loadManifest
  -- gives for its name.
  pub write-load :
      (anew : Bool) (m : Manifest) (s s' : S)
      → (if anew then store_manifest b m s else update_manifest b m s) ≡ (ok tt, s')
      → IsUtf8 m
      → load_manifest b m.name s' ≡ ok m
  write-load true m s s' h text = store-load m s s' h text
  write-load false m s s' h text = update-load m s s' h text
