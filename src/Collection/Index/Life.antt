-- ===== src/Collection/Index/Life.antt =====
-- Making, opening and deleting an index (pkg/collection/index.go).
use fair_os_dfs.Prelude.{ℕ, ◌≡◌, refl, ◌∙◌, Bool, true, false, [], ◌++◌, if◌then◌else◌}
use fair_os_dfs.Prelude.Result.{Result, ok, err}
use fair_os_dfs.Prelude.Text.{Text, text_eq}
use fair_os_dfs.Prelude.Text.Utf8.{follows, is_utf8}
use fair_os_dfs.Collection.Manifests.{
  IndexType, Manifest, new_manifest, IndexError, err_read_only_index, err_index_already_present,
  err_index_not_present, err_manifest_unmarshall, err_manifest_create, err_deleteing_index, Backend,
  Answer, load_manifest, as_error, deleted_feed_magic_word,
}
use fair_os_dfs.Collection.Manifests.Stored.{
  IsBackend, clash, as_error-ok, written-Wrote, written-loaded,
}
use fair_os_dfs.Collection.Index.{
  Index, create_index, create_with, holds_data, is_magic, open_index, delete_index,
}

module _ {S : Type 0} {D : Type 0} {E : Type 0} (b : Backend S D E) (laws : IsBackend b) where
  guarded :
      (c : Bool) (e : IndexError) (x : Answer b (Unit {0})) (s s' : S)
      → (if c then (err e, s) else x) ≡ (ok tt, s')
      → (c ≡ false) × (x ≡ (ok tt, s'))
  guarded true e x s s' h = clash b laws e s s' h
  guarded false e x s s' h = (refl, h)

  -- What a successful CreateIndex leaves: the feed of the name has the reference of the new manifest.
  record Created (m : Manifest) (s s' : S) : Type 0 where
    writable : b.read_only ≡ false
    ref : Text
    reads : b.feed_data (b.hash m.name) s' ≡ ok ref
    named : text_eq ref [] ≡ false
    not_magic : text_eq ref deleted_feed_magic_word ≡ false
    blob : b.download ref s' ≡ ok (b.marshal m)

  with-Created :
      (m : Manifest) (deleted : Bool) (s s' : S)
      → b.read_only ≡ false
      → create_with b m.name deleted (b.upload (b.marshal m) s) ≡ (ok tt, s')
      → Created m s s'
  with-Created m deleted s s' writable h = stored (b.upload (b.marshal m) s) refl h
    where
      stored :
          (u : Result E Text × S)
          → b.upload (b.marshal m) s ≡ u
          → create_with b m.name deleted u ≡ (ok tt, s')
          → Created m s s'
      stored (err e, s1) u h = clash b laws err_manifest_unmarshall s1 s' h
      stored (ok ref, s1) u h =
          let w = written-Wrote b laws deleted err_manifest_create (b.hash m.name) ref s1 s' h in
          let (blob, named, not_magic) = laws.download-upload (b.marshal m) s s1 ref u in
          record {
            writable = writable;
            ref = ref;
            reads = w.reads;
            named = named;
            not_magic = not_magic;
            blob = w.blobs ref ∙ blob;
          }

  module _ (pod collection name : Text) (index_type : IndexType) (mutable_index : Bool) (now : ℕ)
      (s s' : S) where
    abbrev full : Text
    full = pod ++ collection ++ name

    create-Created :
        create_index b pod collection name index_type mutable_index now s ≡ (ok tt, s')
        → Created (new_manifest full now index_type mutable_index) s s'
    unfolding create_index new_manifest
    create-Created h =
        let old = b.feed_data (b.hash full) s in
        let (writable, h1) = guarded b.read_only err_read_only_index _ s s' h in
        let (fresh, h2) = guarded (holds_data b old) err_index_already_present _ s s' h1 in
        with-Created (new_manifest full now index_type mutable_index) (is_magic b old) s s' writable
          h2

    -- The new manifest is there.
    pub create-load :
        create_index b pod collection name index_type mutable_index now s ≡ (ok tt, s')
        → is_utf8 full ≡ true
        → load_manifest b full s' ≡ ok (new_manifest full now index_type mutable_index)
    unfolding new_manifest follows
    create-load h text =
        let c = create-Created h in
        written-loaded b laws (new_manifest full now index_type mutable_index) c.ref s' c.reads
          c.blob (record { name = text; pod_file = refl; entries = tt })

    -- Over a backend that keeps uploaded blobs under references that are not empty, has the data
    -- of a feed that was written, and whose JSON keeps a manifest whose texts are valid UTF-8 and
    -- always gives such a manifest, after CreateIndex has succeeded with names that are valid
    -- UTF-8 when they are joined OpenIndex with the same names gives an index with the joined
    -- name, the type and the mutability it was made with, no pod file and the count 0.
    pub create-open :
        create_index b pod collection name index_type mutable_index now s ≡ (ok tt, s')
        → is_utf8 full ≡ true
        → open_index b pod collection name s'
          ≡ ok (
            record {
              name = full;
              mutable_index = mutable_index;
              index_type = index_type;
              pod_file = [];
            },
            0,
          )
    unfolding open_index new_manifest
    create-open h text = rw (open_index, create-load h text)

    -- Over a backend that keeps uploaded blobs under references that are not empty, has the data
    -- of a feed that was written, and whose JSON keeps a manifest whose texts are valid UTF-8 and
    -- always gives such a manifest, after CreateIndex has succeeded a second CreateIndex with the
    -- same names, whatever its type, fails as the index is present and changes nothing.
    pub create-create :
        (index_type' : IndexType) (mutable_index' : Bool) (now' : ℕ)
        → create_index b pod collection name index_type mutable_index now s ≡ (ok tt, s')
        → create_index b pod collection name index_type' mutable_index' now' s'
          ≡ (err err_index_already_present, s')
    unfolding create_index new_manifest
    create-create index_type' mutable_index' now' h =
        let c = create-Created h in rw (create_index, c.writable, c.reads, c.named, c.not_magic)

  -- Over a backend that keeps uploaded blobs under references that are not empty, has the data of
  -- a feed that was written, and whose JSON keeps a manifest whose texts are valid UTF-8 and
  -- always gives such a manifest, after DeleteIndex has succeeded OpenIndex with names that make
  -- up the name of the index finds none, as there is no blob under the word of a deleted feed.
  pub delete-open :
      (idx : Index) (pod collection name : Text) (s s' : S)
      → pod ++ collection ++ name ≡ idx.name
      → delete_index b idx s ≡ (ok tt, s')
      → open_index b pod collection name s' ≡ err err_index_not_present
  unfolding delete_index open_index load_manifest
  delete-open idx pod collection name s s' same h =
      let (writable, h1) = guarded b.read_only err_read_only_index _ s s' h in
      deleted (load_manifest b idx.name s) h1
    where
      deleted :
          (l : Result IndexError Manifest)
          → elim l [
            | err e ↦ (err err_index_not_present, s)
            | ok m ↦
                as_error b err_deleteing_index
                  (b.update_feed (b.hash idx.name) deleted_feed_magic_word s)
          ]
            ≡ (ok tt, s')
          → open_index b pod collection name s' ≡ err err_index_not_present
      deleted (err e) h = clash b laws err_index_not_present s s' h
      deleted (ok m) h =
          let done = as_error-ok b laws err_deleteing_index _ s' h in
          let (reads, blobs) =
            laws.data-update (b.hash idx.name) deleted_feed_magic_word s s' done in
          let (e, gone) = laws.no_magic_blob s' in rw (open_index, load_manifest, same, reads, gone)
