-- ===== src/Tests/IteratorTests.antt =====
-- Instances for the iterator of an index.
use mathlib.Core.List.{Memᴰ}
use fair_os_dfs.Prelude.{ℕ, suc, ◌≡◌, refl, true, false, List, [], ◌∷◌, Option, none, some, length}
use fair_os_dfs.Prelude.Result.{ok, err}
use fair_os_dfs.Prelude.Text.{Text, text_eq, text_lt, codes, has_prefix, strip, trim_prefix}
use fair_os_dfs.Prelude.Map.{find, assign}
use fair_os_dfs.Collection.Entries.{
  change, change_intermediate, longest_common_prefix, common_prefix, two_entries, add_entry_sorted,
  add_loop, same_refs, scan,
}
use fair_os_dfs.Collection.Manifests.{
  string_index, new_manifest, load_manifest, update_manifest, store_manifest,
}
use fair_os_dfs.Collection.Index.{State, put, get, plan, add_or_update_string_entry, write_entries}
use fair_os_dfs.Collection.Tree.Puts.{put-get}
use fair_os_dfs.Collection.Iterator.{Held, child_manifest, Iterator, next_string_key, pop_exhausted}
use fair_os_dfs.Collection.Iterator.Seek.{new_string_iterator, seek, seek_string_key, seek_scan}
use fair_os_dfs.Collection.Iterator.Listing.{Item}
use fair_os_dfs.Collection.Iterator.Collect.{collect, within}
use fair_os_dfs.Collection.Iterator.Whole.{iterate-get}
use fair_os_dfs.Tests.Memory.{
  Cloud, json, memory, index, empty_state, memory-IsBackend, memory-IsSeparate,
}
use fair_os_dfs.Tests.CollectionTests.{state_of, cloud_put, put_ok, cloud-IsIndex, ab-IsAscii}

abbrev put_in : Text → Text → State Cloud → State Cloud
put_in key v st = state_of (put memory index string_index 1 key v false st)

-- acx and acy behind ac, and b
abbrev three_keys : State Cloud
three_keys =
    put_in (codes "b") (codes "3")
      (put_in (codes "acy") (codes "2") (put_in (codes "acx") (codes "1") empty_state))

abbrev nothing_held : Held
nothing_held = record { mem_db = none; child = λ path. none }

abbrev items_from : Text → Text → Option ℕ → State Cloud → Option (List Item)
items_from start end_prefix limit st =
    elim (new_string_iterator memory 5 index nothing_held start end_prefix limit st.files) [
      | none ↦ none
      | some (err e) ↦ none
      | some (ok itr) ↦ elim (collect memory 9 9 itr st.files) [
        | none ↦ none
        | some (items, last) ↦ some items
      ]
    ]

from_the_start :
    items_from [] [] none three_keys
    ≡ some (
        (codes "acx", codes "1" ∷ [])
        ∷ (codes "acy", codes "2" ∷ [])
        ∷ (codes "b", codes "3" ∷ [])
        ∷ [])
unfolding put load_manifest json update_manifest store_manifest plan add_or_update_string_entry
    write_entries change change_intermediate longest_common_prefix common_prefix two_entries
    add_entry_sorted add_loop same_refs scan text_eq find assign new_manifest has_prefix strip
    trim_prefix text_lt new_string_iterator seek seek_string_key seek_scan next_string_key
    pop_exhausted child_manifest collect
from_the_start = refl

up_to_acy : items_from [] (codes "acy") none three_keys ≡ some ((codes "acx", codes "1" ∷ []) ∷ [])
unfolding put load_manifest json update_manifest store_manifest plan add_or_update_string_entry
    write_entries change change_intermediate longest_common_prefix common_prefix two_entries
    add_entry_sorted add_loop same_refs scan text_eq find assign new_manifest has_prefix strip
    trim_prefix text_lt new_string_iterator seek seek_string_key seek_scan next_string_key
    pop_exhausted child_manifest collect
up_to_acy = refl

from_acy :
    items_from (codes "acy") [] none three_keys
    ≡ some ((codes "acy", codes "2" ∷ []) ∷ (codes "b", codes "3" ∷ []) ∷ [])
unfolding put load_manifest json update_manifest store_manifest plan add_or_update_string_entry
    write_entries change change_intermediate longest_common_prefix common_prefix two_entries
    add_entry_sorted add_loop same_refs scan text_eq find assign new_manifest has_prefix strip
    trim_prefix text_lt new_string_iterator seek seek_string_key seek_scan next_string_key
    pop_exhausted child_manifest collect
from_acy = refl

-- A start that is shorter than the name of a branch passes the keys behind it.
from_a : items_from (codes "a") [] none three_keys ≡ some ((codes "b", codes "3" ∷ []) ∷ [])
unfolding put load_manifest json update_manifest store_manifest plan add_or_update_string_entry
    write_entries change change_intermediate longest_common_prefix common_prefix two_entries
    add_entry_sorted add_loop same_refs scan text_eq find assign new_manifest has_prefix strip
    trim_prefix text_lt new_string_iterator seek seek_string_key seek_scan next_string_key
    pop_exhausted child_manifest collect
from_a = refl

-- A start below a branch is looked for in it by its end, and passes the keys behind it.
from_abz : items_from (codes "abz") [] none three_keys ≡ some ((codes "b", codes "3" ∷ []) ∷ [])
unfolding put load_manifest json update_manifest store_manifest plan add_or_update_string_entry
    write_entries change change_intermediate longest_common_prefix common_prefix two_entries
    add_entry_sorted add_loop same_refs scan text_eq find assign new_manifest has_prefix strip
    trim_prefix text_lt new_string_iterator seek seek_string_key seek_scan next_string_key
    pop_exhausted child_manifest collect
from_abz = refl

iterate-get_example :
    (itr : Iterator) × (items : List Item) × (n : ℕ) × (new_string_iterator memory n index
        nothing_held [] []
        (some 1)
        cloud_put.files
      ≡ some (ok itr))
    × ((last : Iterator) × (collect memory (suc (length items)) (suc n) itr cloud_put.files
          ≡ some (within (some 1) 0 items, last)))
    × ((k : Text) (refs : List Text)
        → get memory index k cloud_put.files ≡ some (ok refs)
        → Memᴰ (k, refs) items)
    × ((k : Text) (refs : List Text)
        → Memᴰ (k, refs) items
        → (refs' : List Text) × (get memory index k cloud_put.files ≡ some (ok refs')))
iterate-get_example =
    iterate-get memory cloud_put.files index nothing_held (some 1) refl
      (put-get memory memory-IsBackend memory-IsSeparate index string_index 1 (codes "ab")
        (codes "1") true empty_state cloud_put cloud-IsIndex ab-IsAscii put_ok).0
