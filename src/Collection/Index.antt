-- ===== src/Collection/Index.antt =====
-- The index (pkg/collection/index.go and index_api.go) with its manifests on disk, which is the mode
-- of Put, Get and Delete. Recursion into child manifests runs on fuel, one for each byte of the key.
pub mod Answers
pub mod Count
pub mod Life
use fair_os_dfs.Prelude.{
  ℕ, zero, suc, ◌+◌, ◌-◌, ◌%◌, ◌^◌, Bool, true, false, not, ◌&&◌, List, [], ◌∷◌, ◌++◌, Option, none,
  some, ◌==◌, if◌then◌else◌, length,
}
use fair_os_dfs.Prelude.Result.{Result, ok, err}
use fair_os_dfs.Prelude.Text.{Text, text_eq, codes}
use fair_os_dfs.Prelude.Filepath
use fair_os_dfs.Collection.Entries.{
  Entry, new_leaf, is_leaf, add_entry_sorted, Change, unchanged, updated, divided, descends, change,
  missing, here, branch, scan, remove_at,
}
use fair_os_dfs.Collection.Manifests.{
  IndexType, Manifest, new_manifest, IndexError, err_read_only_index, err_index_already_present,
  err_index_not_present, err_manifest_unmarshall, err_manifest_create, err_deleteing_index,
  err_no_manifest_found, err_cannot_modify_immutable_index, err_entry_not_found, Backend,
  load_manifest, update_manifest, store_manifest, as_error, deleted_feed_magic_word,
}

-- type Index struct, without the accounts and clients
pub record Index : Type 0 where
  pub name : Text
  pub mutable_index : Bool
  pub index_type : IndexType
  pub pod_file : Text

-- the count of the index, and what is kept outside
pub record State (S : Type 0) : Type 0 where
  pub count : ℕ
  pub files : S

-- parentManifest.Entries without the first intermediate entry of that name, and its references
unfoldable pub remove_branch : Text → List Entry → Option (List Entry × List Text)
remove_branch name [] = none
remove_branch name (e ∷ es) =
    let rest = remove_branch name es in
    if not (is_leaf e) && text_eq e.name name
    then some (es, e.ref)
    else elim rest [ none ↦ none | some (es', ref) ↦ some (e ∷ es', ref) ]

-- What is to be done in this manifest, or in which child to go on.
unfoldable pub plan : Text → Text → Bool → List Entry → Change
plan key value apnd entries = if text_eq key [] then unchanged else change key value apnd entries

module _ {S : Type 0} {D : Type 0} {E : Type 0} (b : Backend S D E) where
  abbrev pub Done : Type 0 → Type 0
  Done A = Result IndexError A × State S

  -- the feed has data, and it is not the word of a deleted one
  abbrev pub holds_data : Result E Text → Bool
  holds_data (err e) = false
  holds_data (ok old) = not (text_eq old []) && not (text_eq old deleted_feed_magic_word)

  abbrev pub is_magic : Result E Text → Bool
  is_magic (err e) = false
  is_magic (ok old) = text_eq old deleted_feed_magic_word

  abbrev pub create_with : Text → Bool → Result E Text × S → Result IndexError (Unit {0}) × S
  create_with name deleted (err e, s) = (err err_manifest_unmarshall, s)
  create_with name deleted (ok ref, s) =
      as_error b err_manifest_create
        (if deleted then b.update_feed (b.hash name) ref s else b.create_feed (b.hash name) ref s)

  -- func CreateIndex, at the time `now`; the data that comes with an error of the feed is empty
  unfoldable pub create_index :
      Text → Text → Text → IndexType → Bool → ℕ → S → Result IndexError (Unit {0}) × S
  unfolding new_manifest
  create_index pod_name collection_name index_name index_type mutable_index now s =
      let name = pod_name ++ collection_name ++ index_name in
      let old = b.feed_data (b.hash name) s in
      if b.read_only
      then (err err_read_only_index, s)
      else if holds_data old
      then (err err_index_already_present, s)
      else create_with name (is_magic old)
          (b.upload (b.marshal (new_manifest name now index_type mutable_index)) s)

  abbrev pub opened : Result IndexError Manifest → Result IndexError (Index × ℕ)
  opened (err e) = err err_index_not_present
  opened (ok m) = ok (
    record {
      name = m.name;
      mutable_index = m.mutable_index;
      index_type = m.idx_type;
      pod_file = m.pod_file;
    },
    m.count,
  )

  -- func OpenIndex, over getRootManifestOfIndex, whose failures are all one: the index and its count
  unfoldable pub open_index : Text → Text → Text → S → Result IndexError (Index × ℕ)
  unfolding load_manifest
  open_index pod_name collection_name index_name s =
      opened (load_manifest b (pod_name ++ collection_name ++ index_name) s)

  -- func (idx *Index) DeleteIndex
  unfoldable pub delete_index : Index → S → Result IndexError (Unit {0}) × S
  unfolding load_manifest
  delete_index idx s =
      if b.read_only then (err err_read_only_index, s) else elim (load_manifest b idx.name s) [
        | err e ↦ (err err_index_not_present, s)
        | ok m ↦
            as_error b err_deleteing_index
              (b.update_feed (b.hash idx.name) deleted_feed_magic_word s)
      ]

  -- The count goes up and the manifest is written with its new entries.
  unfoldable pub write_entries : Manifest → List Entry → State S → Done (Unit {0})
  unfolding update_manifest
  write_entries m entries st =
      let count = (st.count + 1) % 2 ^ 64 in
      let (r, files) = update_manifest b (record m { entries = entries; count = count }) st.files in
      (r, record { count = count; files = files })

  -- the new manifest of a divided entry
  abbrev pub divided_manifest : Manifest → Text → IndexType → ℕ → List Entry → Manifest
  divided_manifest m prefix idx_type now entries = record {
    name = m.name ++ prefix;
    mutable_index = false;
    pod_file = [];
    idx_type = idx_type;
    creation_time = now;
    entries = entries;
    count = 0;
  }

  abbrev pub write_after :
      Manifest → List Entry → ℕ → Result IndexError (Unit {0}) × S → Done (Unit {0})
  write_after m entries count (err e, files) = (err e, record { count = count; files = files })
  write_after m entries count (ok t, files) =
      write_entries m entries (record { count = count; files = files })

  -- func (idx *Index) addOrUpdateStringEntry with memory false, at the time `now`; `none` when the
  -- fuel runs out
  unfoldable pub add_or_update_string_entry :
      IndexType → ℕ → Text → Bool → ℕ → Manifest → Text → State S → Option (Done (Unit {0}))
  unfolding change add_entry_sorted write_entries store_manifest load_manifest
  add_or_update_string_entry idx_type now value apnd zero m key st = none
  add_or_update_string_entry idx_type now value apnd (suc fuel) m key st =
      elim (plan key value apnd m.entries) [
        | unchanged ↦
            some (write_entries m (add_entry_sorted (new_leaf key (value ∷ [])) m.entries) st)
        | updated entries ↦ some (write_entries m entries st)
        | divided entries prefix new ↦ some (
            write_after m entries st.count
              (store_manifest b (divided_manifest m prefix idx_type now new) st.files))
        | descends name rest ↦ elim (load_manifest b (m.name ++ name) st.files) [
          | err e ↦ some (err e, st)
          | ok child ↦ add_or_update_string_entry idx_type now value apnd fuel child rest st
        ]
      ]

  -- func (idx *Index) Put
  unfoldable pub put :
      Index → IndexType → ℕ → Text → Text → Bool → State S → Option (Done (Unit {0}))
  unfolding add_or_update_string_entry load_manifest
  put idx idx_type now key value apnd st =
      if b.read_only
      then some (err err_read_only_index, st)
      else if not idx.mutable_index
      then some (err err_cannot_modify_immutable_index, st)
      else elim (load_manifest b idx.name st.files) [
        | err e ↦ some (err e, st)
        | ok m ↦ add_or_update_string_entry idx_type now value apnd (length key + 2) m key st
      ]

  -- The manifest of a found entry, its index there, and the entry.
  pub record Found : Type 0 where
    pub manifest : Manifest
    pub index : ℕ
    pub entry : Entry

  -- func (idx *Index) findManifest, on disk; the grandparent that it also returns is used by nobody
  unfoldable pub find_manifest : ℕ → Manifest → Text → S → Option (Result IndexError Found)
  unfolding scan load_manifest
  find_manifest zero m key s = none
  find_manifest (suc fuel) m key s = elim (scan 0 key m.entries) [
    | missing ↦ some (err err_entry_not_found)
    | here i e ↦ some (ok (record { manifest = m; index = i; entry = e }))
    | branch name rest ↦ elim (load_manifest b (m.name ++ name) s) [
      | err e ↦ some (err e)
      | ok child ↦ find_manifest fuel child rest s
    ]
  ]

  abbrev pub find_in : Manifest → Text → S → Option (Result IndexError Found)
  find_in m key s = elim m.entries [
    | [] ↦ some (err err_entry_not_found)
    | e ∷ es ↦ find_manifest (length key + 2) m key s
  ]

  abbrev no_root : IndexError → IndexError
  no_root err_no_manifest_found = err_entry_not_found
  no_root e = e

  -- func (idx *Index) seekManifestAndEntry
  unfoldable pub seek_manifest_and_entry : Index → Text → S → Option (Result IndexError Found)
  unfolding find_manifest load_manifest
  seek_manifest_and_entry idx key s = elim (load_manifest b idx.name s) [
    | err e ↦ some (err (no_root e))
    | ok m ↦ find_in m key s
  ]

  abbrev pub refs_of : Option (Result IndexError Found) → Option (Result IndexError (List Text))
  refs_of none = none
  refs_of (some (err e)) = some (err e)
  refs_of (some (ok f)) = some (ok f.entry.ref)

  -- func (idx *Index) Get
  unfoldable pub get : Index → Text → S → Option (Result IndexError (List Text))
  unfolding seek_manifest_and_entry
  get idx key s = refs_of (seek_manifest_and_entry idx key s)

  abbrev with_refs : List Text → Result IndexError (Unit {0}) × S → ℕ → Done (List Text)
  with_refs refs (err e, files) count = (err e, record { count = count; files = files })
  with_refs refs (ok t, files) count = (ok refs, record { count = count; files = files })

  abbrev only_empty_name : List Entry → Bool
  only_empty_name [] = false
  only_empty_name (e ∷ []) = text_eq e.name []
  only_empty_name (e ∷ f ∷ es) = false

  -- The last entry of a manifest goes with the branch to it, which is looked for in the manifest
  -- that filepath.Dir and filepath.Base make of the name.
  unfoldable pub delete_branch : Found → State S → Done (List Text)
  unfolding load_manifest update_manifest remove_branch
  delete_branch f st = elim (load_manifest b (Filepath.dir f.manifest.name) st.files) [
    | err e ↦ (err e, st)
    | ok parent ↦ elim (remove_branch (Filepath.base f.manifest.name) parent.entries) [
      | none ↦ with_refs f.entry.ref (update_manifest b parent st.files) st.count
      | some (entries, refs) ↦
          with_refs refs (update_manifest b (record parent { entries = entries }) st.files) st.count
    ]
  ]

  -- The entry is cut out, and the count goes down, on uint64.
  unfoldable pub delete_entry : Found → State S → Done (List Text)
  unfolding update_manifest remove_at
  delete_entry f st =
      let count = (st.count + (2 ^ 64 - 1)) % 2 ^ 64 in
      with_refs f.entry.ref
        (update_manifest b
          (record f.manifest { entries = remove_at f.index f.manifest.entries; count = count })
          st.files)
        count

  -- func (idx *Index) Delete
  unfoldable pub delete : Index → Text → State S → Option (Done (List Text))
  unfolding seek_manifest_and_entry delete_branch delete_entry
  delete idx key st =
      if b.read_only
      then some (err err_read_only_index, st)
      else if not idx.mutable_index
      then some (err err_cannot_modify_immutable_index, st)
      else elim (seek_manifest_and_entry idx key st.files) [
        | none ↦ none
        | some (err e) ↦ some (err e, st)
        | some (ok f) ↦
            some
              (if only_empty_name f.manifest.entries then delete_branch f st else delete_entry f st)
      ]
