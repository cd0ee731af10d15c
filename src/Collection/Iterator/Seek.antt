-- ===== src/Collection/Iterator/Seek.antt =====
-- Making an iterator, and Seek (pkg/collection/iterator.go).
use fair_os_dfs.Prelude.{
  ℕ, zero, suc, Bool, true, not, ◌&&◌, List, [], ◌∷◌, ◌++◌, Option, none, some, ltb, if◌then◌else◌,
  length, take, drop,
}
use fair_os_dfs.Prelude.Result.{Result, ok, err}
use fair_os_dfs.Prelude.Text.{Text, text_eq, text_lt, has_prefix, trim_prefix}
use fair_os_dfs.Collection.Entries.{Entry, is_leaf, too_far}
use fair_os_dfs.Collection.Manifests.{
  Manifest, IndexError, err_entry_not_found, Backend, load_manifest,
}
use fair_os_dfs.Collection.Index.{Index}
use fair_os_dfs.Collection.Iterator.{
  ManifestState, Held, IteratorError, err_empty_index, err_of_index, nil_manifest, Iterator,
  new_iterator, child_manifest,
}

-- What the loop of seekStringKey over the entries comes to: nothing, an entry to stand at, or a child
-- to go on in, with the index to come back to and the rest of the key: goes_into where the key begins
-- with the entry's name, goes_below where the name is above the key.
pub data Sought : Type 0 where
  not_sought : Sought
  stands_at : ℕ → Sought
  goes_into : ℕ → Text → Text → Sought
  goes_below : ℕ → Text → Text → Sought

-- the loop of seekStringKey, from an index on
unfoldable pub seek_scan : ℕ → Text → List Entry → Sought
seek_scan i key [] = not_sought
seek_scan i key (e ∷ es) =
    let later = seek_scan (suc i) key es in
    let reduced_key = take (length e.name) key in
    if too_far e.name key
    then stands_at i
    else if not (text_eq e.name []) && is_leaf e && text_lt key e.name
    then stands_at i
    else if is_leaf e && text_eq e.name key
    then stands_at i
    else if not (is_leaf e) && has_prefix key e.name
    then goes_into (suc i) e.name (trim_prefix key e.name)
    else if not (is_leaf e) && ltb (length e.name) (length key) && text_lt reduced_key e.name
    then goes_below (suc i) e.name (drop (length e.name) key)
    else later

-- what Seek comes to: its error, if any, and the stack
abbrev pub Seeking : Type 0
Seeking = Result IteratorError (Unit {0}) × List ManifestState

-- an entry that is not found in the child is no error
abbrev pub found_or_behind : Option Seeking → Option Seeking
found_or_behind none = none
found_or_behind (some (ok t, stack)) = some (ok tt, stack)
found_or_behind (some (err (err_of_index err_entry_not_found), stack)) = some (ok tt, stack)
found_or_behind (some (err e, stack)) = some (err e, stack)

module _ {S : Type 0} {D : Type 0} {E : Type 0} (b : Backend S D E) where
  -- the same in the first branch of seekStringKey, which loads a nil Manifest
  abbrev pub child_sought : Bool → Held → Text → S → Result IndexError (Option Manifest)
  child_sought mutable_index held path s = elim (held.child path) [
    | none ↦ child_manifest b true held path s
    | some c ↦ child_manifest b mutable_index held path s
  ]

  -- func (itr *Iterator) seekStringKey, on the stack
  unfoldable pub seek_string_key :
      ℕ → Bool → Held → Manifest → Text → S → List ManifestState → Option Seeking
  unfolding seek_scan child_manifest
  seek_string_key zero mutable_index held m key s stack = none
  seek_string_key (suc fuel) mutable_index held m key s stack = elim (seek_scan 0 key m.entries) [
    | not_sought ↦ some (err (err_of_index err_entry_not_found), stack)
    | stands_at i ↦ some (ok tt, record { current_manifest = some m; current_index = i } ∷ stack)
    | goes_into i name rest ↦
        let stack' = record { current_manifest = some m; current_index = i } ∷ stack in
        elim (child_sought mutable_index held (m.name ++ name) s) [
          | err e ↦ some (err (err_of_index e), stack')
          | ok found ↦ elim found [
            | none ↦ some (err nil_manifest, stack')
            | some child ↦
                found_or_behind (seek_string_key fuel mutable_index held child rest s stack')
          ]
        ]
    | goes_below i name rest ↦
        let stack' = record { current_manifest = some m; current_index = i } ∷ stack in
        elim (child_manifest b mutable_index held (m.name ++ name) s) [
          | err e ↦ some (err (err_of_index e), stack')
          | ok found ↦ elim found [
            | none ↦ some (err nil_manifest, stack')
            | some child ↦
                found_or_behind (seek_string_key fuel mutable_index held child rest s stack')
          ]
        ]
  ]

  abbrev seek_in :
      ℕ
      → Text
      → Iterator
      → S
      → Option Manifest
      → Option (Result IteratorError (Unit {0}) × Iterator)
  seek_in fuel key itr s none = some (err nil_manifest, itr)
  seek_in fuel key itr s (some m) =
      elim (seek_string_key fuel itr.mutable_index itr.held m key s itr.manifest_stack) [
        | none ↦ none
        | some (r, stack) ↦ some (r, record itr { manifest_stack = stack })
      ]

  -- func (itr *Iterator) Seek
  unfoldable pub seek :
      ℕ → Text → Iterator → S → Option (Result IteratorError (Unit {0}) × Iterator)
  unfolding seek_string_key load_manifest
  seek fuel key itr s =
      if itr.mutable_index
      then elim (load_manifest b itr.index_name s) [
        | err e ↦ some (err (err_of_index e), itr)
        | ok m ↦ seek_in fuel key itr s (some m)
      ]
      else seek_in fuel key itr s itr.held.mem_db

  abbrev pub sought :
      Option (Result IteratorError (Unit {0}) × Iterator) → Option (Result IteratorError Iterator)
  sought none = none
  sought (some (err e, itr)) = some (err e)
  sought (some (ok t, itr)) = some (ok itr)

  abbrev iterator_from :
      ℕ
      → Index
      → Held
      → Text
      → Text
      → Option ℕ
      → S
      → Option Manifest
      → Option (Result IteratorError Iterator)
  iterator_from fuel idx held start end_prefix limit s manifest =
      if text_eq start []
      then some (
          ok (
            new_iterator idx held end_prefix limit
              (record { current_manifest = manifest; current_index = 0 } ∷ [])))
      else sought (seek fuel start (new_iterator idx held end_prefix limit []) s)

  -- func (idx *Index) NewStringIterator
  unfoldable pub new_string_iterator :
      ℕ → Index → Held → Text → Text → Option ℕ → S → Option (Result IteratorError Iterator)
  unfolding seek load_manifest
  new_string_iterator fuel idx held start end_prefix limit s =
      if idx.mutable_index
      then elim (load_manifest b idx.name s) [
        | err e ↦ some (err err_empty_index)
        | ok m ↦ iterator_from fuel idx held start end_prefix limit s (some m)
      ]
      else iterator_from fuel idx held start end_prefix limit s held.mem_db
