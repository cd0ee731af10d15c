-- ===== src/Collection/Iterator.antt =====
-- The iterator of an index (pkg/collection/iterator.go). Recursion into child manifests runs on fuel.
-- A handle that is not mutable goes through the manifests that it holds in memory.
pub mod Seek
pub mod Listing
pub mod Next
pub mod Leaves
pub mod Visits
pub mod Whole
pub mod Collect
use fair_os_dfs.Prelude.{
  ℕ, zero, suc, ◌+◌, Bool, true, false, not, ◌&&◌, ◌||◌, List, [], ◌∷◌, ◌++◌, Option, none, some,
  ltb, leb, ◌==◌, if◌then◌else◌, length, get_elem?, take, drop,
}
use fair_os_dfs.Prelude.Result.{Result, ok, err}
use fair_os_dfs.Prelude.Text.{Text, text_eq, text_lt, has_prefix, trim_prefix}
use fair_os_dfs.Collection.Entries.{EType, leaf_entry, intermediate_entry, Entry, is_leaf, too_far}
use fair_os_dfs.Collection.Manifests.{
  Manifest, IndexError, err_entry_not_found, Backend, load_manifest,
}
use fair_os_dfs.Collection.Index.{Index}

-- type ManifestState struct; the manifest may be nil
pub record ManifestState : Type 0 where
  pub current_manifest : Option Manifest
  pub current_index : ℕ

-- What a handle holds in memory: memDB, and the Manifest of an entry by the name of the child. Either
-- is nil where there is none.
pub record Held : Type 0 where
  pub mem_db : Option Manifest
  pub child : Text → Option Manifest

-- the errors of making an iterator, of Seek and of Next; nil_manifest is a panic on a nil manifest
pub data IteratorError : Type 0 where
  err_empty_index : IteratorError
  err_no_next_element : IteratorError
  err_of_index : IndexError → IteratorError
  nil_manifest : IteratorError

-- type Iterator struct; a limit below 0 is none, and the top of the stack comes first. Of its index
-- it has the name, whether it is mutable, and what it holds.
pub record Iterator : Type 0 where
  pub index_name : Text
  pub mutable_index : Bool
  pub held : Held
  pub end_prefix : Text
  pub limit : Option ℕ
  pub given_until_now : ℕ
  pub current_key : Text
  pub current_value : List Text
  pub manifest_stack : List ManifestState
  pub error : Option IteratorError

abbrev pub new_iterator : Index → Held → Text → Option ℕ → List ManifestState → Iterator
new_iterator idx held end_prefix limit stack = record {
  index_name = idx.name;
  mutable_index = idx.mutable_index;
  held = held;
  end_prefix = end_prefix;
  limit = limit;
  given_until_now = 0;
  current_key = [];
  current_value = [];
  manifest_stack = stack;
  error = none;
}

-- don't go beyond the limit
abbrev pub given_all : Option ℕ → ℕ → Bool
given_all none given = false
given_all (some limit) given = leb limit given

-- The manifest at the top with its index, what is left of the stack and the next entry; or the last
-- manifest when all of them are exhausted; or the stack with a nil manifest on top.
pub data Popped : Type 0 where
  exhausted : ManifestState → Popped
  no_manifest : List ManifestState → Popped
  at_entry : Manifest → ℕ → List ManifestState → Entry → Popped

-- the loop of nextStringKey that pops exhausted manifests
unfoldable pub pop_exhausted : ManifestState → List ManifestState → Popped
pop_exhausted top [] = elim top.current_manifest [
  | none ↦ no_manifest (top ∷ [])
  | some m ↦ elim (get_elem? m.entries top.current_index) [
    | none ↦ exhausted top
    | some e ↦ at_entry m top.current_index [] e
  ]
]
pop_exhausted top (below ∷ stack) = elim top.current_manifest [
  | none ↦ no_manifest (top ∷ below ∷ stack)
  | some m ↦ elim (get_elem? m.entries top.current_index) [
    | none ↦ pop_exhausted below stack
    | some e ↦ at_entry m top.current_index (below ∷ stack) e
  ]
]

-- actualKey
abbrev pub actual_key : Text → Manifest → Entry → Text
actual_key index_name m e = trim_prefix (m.name ++ e.name) index_name

-- the search has reached the end key
abbrev pub past_end : Text → Text → Bool
past_end end_prefix key =
    not (text_eq end_prefix []) && (text_lt end_prefix key || text_eq key end_prefix)

module _ {S : Type 0} {D : Type 0} {E : Type 0} (b : Backend S D E) where
  -- the child of an entry: loaded for a mutable index, and else the Manifest of the entry
  unfoldable pub child_manifest : Bool → Held → Text → S → Result IndexError (Option Manifest)
  unfolding load_manifest
  child_manifest mutable_index held path s =
      if mutable_index
      then elim (load_manifest b path s) [ err e ↦ err e | ok c ↦ ok (some c) ]
      else ok (held.child path)

  -- func (itr *Iterator) nextStringKey, which Next calls
  unfoldable pub next_string_key : ℕ → Iterator → S → Option (Bool × Iterator)
  unfolding pop_exhausted child_manifest
  next_string_key zero itr s = none
  next_string_key (suc fuel) itr s =
      if given_all itr.limit itr.given_until_now
      then some (false, itr)
      else elim itr.manifest_stack [
        | [] ↦ some (false, record itr { error = some err_no_next_element })
        | top ∷ stack ↦ elim (pop_exhausted top stack) [
          | exhausted last ↦
              some
                (false, record itr { manifest_stack = last ∷ []; error = some err_no_next_element })
          | no_manifest left ↦ some (false, record itr { manifest_stack = left })
          | at_entry m i below e ↦
              let key = actual_key itr.index_name m e in
              let stack' = record { current_manifest = some m; current_index = suc i } ∷ below in
              if past_end itr.end_prefix key
              then some (false, record itr { manifest_stack = stack' })
              else elim e.e_type [
                | leaf_entry ↦ some (
                  true,
                  record itr {
                    current_key = key;
                    current_value = e.ref;
                    given_until_now = suc itr.given_until_now;
                    manifest_stack = stack';
                  },
                )
                | intermediate_entry ↦
                    elim (child_manifest itr.mutable_index itr.held (m.name ++ e.name) s) [
                      | err e' ↦ some (
                        false,
                        record itr { manifest_stack = stack'; error = some (err_of_index e') },
                      )
                      | ok child ↦
                          next_string_key fuel
                            (record itr {
                              manifest_stack =
                                  record { current_manifest = child; current_index = 0 } ∷ stack';
                            })
                            s
                    ]
              ]
        ]
      ]
