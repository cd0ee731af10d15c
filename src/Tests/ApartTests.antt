-- ===== src/Tests/ApartTests.antt =====
-- Instances for two indexes in one place.
use fair_os_dfs.Prelude.{arith, ◌≡◌, refl, true, false, [], ◌∷◌, some}
use fair_os_dfs.Prelude.Result.{ok, err}
use fair_os_dfs.Prelude.Text.{Text, text_eq, codes, has_prefix, strip, trim_prefix}
use fair_os_dfs.Prelude.Map.{find, assign}
use fair_os_dfs.Collection.Entries.{
  change, change_intermediate, longest_common_prefix, common_prefix, two_entries, add_entry_sorted,
  add_loop, same_refs, scan,
}
use fair_os_dfs.Collection.Manifests.{
  string_index, new_manifest, load_manifest, update_manifest, store_manifest, err_entry_not_found,
}
use fair_os_dfs.Collection.Index.{
  Index, State, put, get, plan, add_or_update_string_entry, write_entries, find_manifest,
  seek_manifest_and_entry,
}
use fair_os_dfs.Collection.Tree.{tree}
use fair_os_dfs.Collection.Tree.Puts.{IsIndex}
use fair_os_dfs.Collection.Tree.Apart.{put-get_other}
use fair_os_dfs.Tests.Memory.{json, Cloud, memory, memory-IsBackend, memory-IsSeparate}
use fair_os_dfs.Tests.CollectionTests.{state_of}

abbrev index_named : Text → Index
index_named name = record {
  name = name;
  mutable_index = true;
  index_type = string_index;
  pod_file = [];
}

-- three new indexes
abbrev tables : State Cloud
tables = record {
  count = 0;
  files = record {
    feeds = (codes "podKVa", 0 ∷ []) ∷ (codes "podKVab", 1 ∷ []) ∷ (codes "podKVc", 2 ∷ []) ∷ [];
    blobs =
        new_manifest (codes "podKVa") 1 string_index true
        ∷ new_manifest (codes "podKVab") 1 string_index true
        ∷ new_manifest (codes "podKVc") 1 string_index true
        ∷ [];
  };
}

abbrev put_into : Text → Text → Text → State Cloud → State Cloud
put_into name key v st = state_of (put memory (index_named name) string_index 1 key v false st)

abbrev with_k : State Cloud
with_k = put_into (codes "podKVab") (codes "k") (codes "1") tables

k_found :
    get memory (index_named (codes "podKVab")) (codes "k") with_k.files ≡ some (ok (codes "1" ∷ []))
unfolding put get load_manifest json update_manifest plan add_or_update_string_entry write_entries
    find_manifest seek_manifest_and_entry change add_entry_sorted add_loop same_refs scan text_eq
    find assign new_manifest
k_found = refl

-- The keys bx and by of the table a make a manifest with the name of the table ab.
k_lost :
    get memory
      (index_named (codes "podKVab"))
      (codes "k")
      (put_into
        (codes "podKVa")
        (codes "by")
        (codes "3")
        (put_into (codes "podKVa") (codes "bx") (codes "2") with_k)).files
    ≡ some (err err_entry_not_found)
unfolding put get load_manifest json update_manifest store_manifest plan add_or_update_string_entry
    write_entries find_manifest seek_manifest_and_entry change change_intermediate
    longest_common_prefix common_prefix two_entries add_entry_sorted add_loop same_refs scan text_eq
    find assign has_prefix strip trim_prefix new_manifest
k_lost = refl

a-IsIndex : IsIndex memory tables.files (codes "podKVa")
unfolding load_manifest json find text_eq new_manifest scan
a-IsIndex = (
  new_manifest (codes "podKVa") 1 string_index true,
  refl,
  refl,
  tree tt (λ k n r q. ground (arith, q)) (λ k n r c q. ground (arith, q)),
)

c-IsIndex : IsIndex memory tables.files (codes "podKVc")
unfolding load_manifest json find text_eq new_manifest scan
c-IsIndex = (
  new_manifest (codes "podKVc") 1 string_index true,
  refl,
  refl,
  tree tt (λ k n r q. ground (arith, q)) (λ k n r c q. ground (arith, q)),
)

abbrev a_put : State Cloud
a_put = put_into (codes "podKVa") (codes "k") (codes "1") tables

a_put_ok :
    put memory (index_named (codes "podKVa")) string_index 1 (codes "k") (codes "1") false tables
    ≡ some (ok tt, a_put)
unfolding put load_manifest json update_manifest plan add_or_update_string_entry write_entries
    change add_entry_sorted add_loop same_refs text_eq find assign new_manifest
a_put_ok = refl

put-get_other_example :
    IsIndex memory a_put.files (codes "podKVc")
    × ((k : Text)
        → get memory (index_named (codes "podKVc")) k a_put.files
          ≡ get memory (index_named (codes "podKVc")) k tables.files)
unfolding has_prefix
put-get_other_example =
    put-get_other memory memory-IsBackend memory-IsSeparate (index_named (codes "podKVa"))
      (index_named (codes "podKVc")) string_index 1 (codes "k") (codes "1") false tables a_put
      a-IsIndex c-IsIndex refl refl a_put_ok
