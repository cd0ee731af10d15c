-- ===== src/Collection/Manifests.antt =====
-- Manifests and where they are kept (pkg/collection/entry.go, index.go, errors.go): a blob for the
-- manifest, and its reference in the feed whose topic is the hash of the manifest's name.
pub mod Stored
pub mod Frames
use fair_os_dfs.Prelude.{ℕ, Bool, true, List, [], if◌then◌else◌}
use fair_os_dfs.Prelude.Result.{Result, ok, err}
use fair_os_dfs.Prelude.Text.{Text, codes}
use fair_os_dfs.Collection.Entries.{Entry}

-- type IndexType int
pub data IndexType : Type 0 where
  invalid_index : IndexType
  bytes_index : IndexType
  string_index : IndexType
  number_index : IndexType
  map_index : IndexType
  list_index : IndexType
  vector_index : IndexType

-- type Manifest struct; the dirty flag is not stored
pub record Manifest : Type 0 where
  pub name : Text
  pub mutable_index : Bool
  pub pod_file : Text
  pub idx_type : IndexType
  pub creation_time : ℕ
  pub entries : List Entry
  pub count : ℕ

-- func NewManifest
unfoldable pub new_manifest : Text → ℕ → IndexType → Bool → Manifest
new_manifest name time idx_type mutable_index = record {
  name = name;
  mutable_index = mutable_index;
  pod_file = [];
  idx_type = idx_type;
  creation_time = time;
  entries = [];
  count = 0;
}

-- const DeletedFeedMagicWord
abbrev pub deleted_feed_magic_word : Text
deleted_feed_magic_word = codes "__Fair__"

-- the errors of the package that the index returns
pub data IndexError : Type 0 where
  err_read_only_index : IndexError
  err_index_already_present : IndexError
  err_index_not_present : IndexError
  err_manifest_unmarshall : IndexError
  err_manifest_create : IndexError
  err_deleteing_index : IndexError
  err_no_manifest_found : IndexError
  err_cannot_modify_immutable_index : IndexError
  err_entry_not_found : IndexError

-- utils.HashString, the feeds of the user (feed.API), the blobs of the client, and json. `E` is
-- their error, of which only ErrDeletedFeed is told apart; `S` is their state.
pub record Backend (S : Type 0) (D : Type 0) (E : Type 0) : Type 0 where
  pub read_only : Bool
  pub hash : Text → Text
  pub feed_data : Text → S → Result E Text
  pub is_deleted_feed : E → Bool
  pub create_feed : Text → Text → S → Result E (Unit {0}) × S
  pub update_feed : Text → Text → S → Result E (Unit {0}) × S
  pub upload : D → S → Result E Text × S
  pub download : Text → S → Result E D
  pub marshal : Manifest → D
  pub unmarshal : D → Result E Manifest

module _ {S : Type 0} {D : Type 0} {E : Type 0} (b : Backend S D E) where
  abbrev pub Answer : Type 0 → Type 0
  Answer A = Result IndexError A × S

  abbrev pub parsed : Result E Manifest → Result IndexError Manifest
  parsed (err e) = err err_manifest_unmarshall
  parsed (ok m) = ok m

  abbrev pub downloaded : Result E D → Result IndexError Manifest
  downloaded (err e) = err err_no_manifest_found
  downloaded (ok d) = parsed (b.unmarshal d)

  -- func (idx *Index) loadManifest
  unfoldable pub load_manifest : Text → S → Result IndexError Manifest
  load_manifest path s = elim (b.feed_data (b.hash path) s) [
    | err e ↦ err err_no_manifest_found
    | ok ref ↦ downloaded (b.download ref s)
  ]

  -- an error of a feed is reported as one of the package
  abbrev pub as_error : IndexError → Result E (Unit {0}) × S → Answer (Unit {0})
  as_error e (err e', s) = (err e, s)
  as_error e (ok t, s) = (ok tt, s)

  abbrev pub update_with : Text → Result E Text × S → Answer (Unit {0})
  update_with name (err e, s) = (err err_manifest_unmarshall, s)
  update_with name (ok ref, s) = as_error err_manifest_create (b.update_feed (b.hash name) ref s)

  -- func (idx *Index) updateManifest
  unfoldable pub update_manifest : Manifest → S → Answer (Unit {0})
  update_manifest m s = update_with m.name (b.upload (b.marshal m) s)

  -- the feed is updated if there is one, deleted ones included, and made if there is none
  abbrev pub feed_exists : Result E Text → Bool
  feed_exists (err e) = b.is_deleted_feed e
  feed_exists (ok ref) = true

  abbrev pub store_with : Text → Result E Text × S → Answer (Unit {0})
  store_with name (err e, s) = (err err_manifest_create, s)
  store_with name (ok ref, s) = as_error err_manifest_create (
      if feed_exists (b.feed_data (b.hash name) s)
      then b.update_feed (b.hash name) ref s
      else b.create_feed (b.hash name) ref s)

  -- func (idx *Index) storeManifest
  unfoldable pub store_manifest : Manifest → S → Answer (Unit {0})
  store_manifest m s = store_with m.name (b.upload (b.marshal m) s)
