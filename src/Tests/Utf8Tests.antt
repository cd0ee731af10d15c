-- ===== src/Tests/Utf8Tests.antt =====
-- Instances of Put for keys that are not ASCII (pkg/collection/index_api.go).
use fair_os_dfs.Prelude.{◌≡◌, refl, false, [], ◌∷◌, some}
use fair_os_dfs.Prelude.Result.{ok, err}
use fair_os_dfs.Prelude.Text.{Text, text_eq, codes, has_prefix, strip, trim_prefix}
use fair_os_dfs.Prelude.Map.{find, assign}
use fair_os_dfs.Collection.Entries.{
  change, change_intermediate, longest_common_prefix, common_prefix, two_entries, add_entry_sorted,
  add_loop, same_refs, scan,
}
use fair_os_dfs.Collection.Manifests.{
  string_index, err_entry_not_found, new_manifest, load_manifest, update_manifest, store_manifest,
}
use fair_os_dfs.Collection.Index.{
  State, put, get, seek_manifest_and_entry, find_manifest, plan, add_or_update_string_entry,
  write_entries,
}
use fair_os_dfs.Tests.Memory.{Cloud, json, memory, index, empty_state}
use fair_os_dfs.Tests.CollectionTests.{state_of}

-- é and è
abbrev e_acute : Text
e_acute = 195 ∷ 169 ∷ []

abbrev e_grave : Text
e_grave = 195 ∷ 168 ∷ []

abbrev one_put : State Cloud
one_put = state_of (put memory index string_index 1 e_acute (codes "1") false empty_state)

abbrev both_put : State Cloud
both_put = state_of (put memory index string_index 2 e_grave (codes "2") false one_put)

found_alone : get memory index e_acute one_put.files ≡ some (ok (codes "1" ∷ []))
unfolding put get seek_manifest_and_entry find_manifest load_manifest json update_manifest
    store_manifest plan add_or_update_string_entry write_entries change change_intermediate
    longest_common_prefix common_prefix two_entries add_entry_sorted add_loop same_refs scan text_eq
    find assign new_manifest has_prefix strip trim_prefix
found_alone = refl

-- The common prefix is the first byte of both, which is no valid text, and JSON replaces it.
lost_after : get memory index e_acute both_put.files ≡ some (err err_entry_not_found)
unfolding put get seek_manifest_and_entry find_manifest load_manifest json update_manifest
    store_manifest plan add_or_update_string_entry write_entries change change_intermediate
    longest_common_prefix common_prefix two_entries add_entry_sorted add_loop same_refs scan text_eq
    find assign new_manifest has_prefix strip trim_prefix
lost_after = refl
