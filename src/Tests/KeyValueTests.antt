-- ===== src/Tests/KeyValueTests.antt =====
-- Instances for the key-value tables.
use fair_os_dfs.Prelude.{◌≡◌, refl, true, false, Bool, List, [], ◌∷◌, Option, none, some}
use fair_os_dfs.Prelude.Result.{Result, ok}
use fair_os_dfs.Prelude.Text.{Text, text_eq, codes}
use fair_os_dfs.Prelude.Map.{GoMap, find, assign}
use fair_os_dfs.Collection.Entries.{change, add_entry_sorted, add_loop, same_refs}
use fair_os_dfs.Collection.Manifests.{
  Manifest, string_index, new_manifest, load_manifest, update_manifest,
}
use fair_os_dfs.Collection.Index.{put, plan, add_or_update_string_entry, write_entries}
use fair_os_dfs.Collection.Tree.Puts.{IsIndex}
use fair_os_dfs.Collection.KeyValue.{
  KvTable, KeyValue, KvError, split_at, join_by, load_lines, parse_tables, print_tables,
  load_kv_tables, store_kv_tables,
}
use fair_os_dfs.Collection.KeyValue.Entry.{kv_put, kv_get, kv_put-kv_get}
use fair_os_dfs.Collection.KeyValue.Tables.{store-load_kv_tables}
use fair_os_dfs.Tests.Memory.{
  Missing, Cloud, json, memory, index, cloud, memory-IsBackend, memory-IsSeparate,
}
use fair_os_dfs.Tests.CollectionTests.{cloud-IsIndex, ab-IsAscii}

abbrev listed : GoMap (List Text)
listed = (codes "t", codes "S" ∷ []) ∷ (codes "u", codes "B" ∷ []) ∷ []

abbrev is_missing : Missing → Bool
is_missing e = true

abbrev table : KvTable
table = record { index = index; count = 0; index_type = string_index; columns = [] }

abbrev tables : KeyValue Cloud
tables = record { open_kv_tables = (codes "t", table) ∷ []; iterator = none; files = cloud }

abbrev after_store : Result (KvError Missing) (Unit {0}) × KeyValue Cloud
after_store = store_kv_tables memory (codes "pod") is_missing listed tables

store_ok : after_store ≡ (ok tt, after_store.1)
unfolding store_kv_tables print_tables join_by text_eq assign
store_ok = refl

store-load_kv_tables_example :
    (loaded : GoMap (List Text)) × (load_kv_tables memory
        (codes "pod")
        is_missing
        after_store.1.files
      ≡ ok loaded)
    × ((k : Text) → find k loaded ≡ find k listed)
unfolding find text_eq
store-load_kv_tables_example =
    store-load_kv_tables memory memory-IsBackend (codes "pod") is_missing listed tables
      after_store.1
      (
        (refl, tt),
        (refl, tt),
        tt,
        ((refl, tt), tt),
        ((refl, tt), tt),
        refl,
        ((refl, tt), (refl, tt), tt, ((refl, tt), tt), ((refl, tt), tt), refl, tt),
      )
      store_ok

-- A table whose name has a comma is not in the list that is read back.
comma_lost :
    find (codes "a,b") (parse_tables (print_tables ((codes "a,b", codes "StringIndex" ∷ []) ∷ [])))
    ≡ none
unfolding parse_tables print_tables load_lines split_at join_by find assign text_eq
comma_lost = refl

abbrev blob_of : Text → Manifest
blob_of t = new_manifest t 0 string_index true

abbrev put_t : Option (Result (KvError Missing) (Unit {0}) × KeyValue Cloud)
put_t =
    kv_put memory (λ k. none) blob_of (λ m. m.name) (codes "t") 1 (codes "ab") (codes "1") tables

abbrev after_of : Option (Result (KvError Missing) (Unit {0}) × KeyValue Cloud) → KeyValue Cloud
after_of none = tables
after_of (some (r, kv)) = kv

put_ok : put_t ≡ some (ok tt, after_of put_t)
unfolding kv_put put load_manifest json update_manifest plan add_or_update_string_entry
    write_entries change add_entry_sorted add_loop same_refs text_eq find assign new_manifest
put_ok = refl

kv_put-kv_get_example :
    IsIndex memory (after_of put_t).files (codes "pod")
    × (kv_get memory (λ k. none) blob_of (λ m. m.name) (codes "t") (codes "ab") (after_of put_t)
        ≡ some (ok ([], codes "1")))
    × ((k : Text)
        → text_eq (codes "ab") k ≡ false
        → kv_get memory (λ k. none) blob_of (λ m. m.name) (codes "t") k (after_of put_t)
          ≡ kv_get memory (λ k. none) blob_of (λ m. m.name) (codes "t") k tables)
unfolding find text_eq
kv_put-kv_get_example =
    kv_put-kv_get memory (λ k. none) blob_of (λ m. m.name) memory-IsBackend memory-IsSeparate
      (codes "t") table refl tables (after_of put_t) refl 1 (codes "ab") (codes "1") cloud-IsIndex
      ab-IsAscii put_ok
