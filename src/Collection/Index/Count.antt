-- ===== src/Collection/Index/Count.antt =====
-- IsEmpty and CountIndex (pkg/collection/index.go), which keep the root manifest in memory.
use fair_os_dfs.Prelude.{
  ℕ, zero, suc, ◌+◌, ◌%◌, ◌^◌, Bool, true, false, List, [], ◌∷◌, ◌++◌, Option, none, some,
  if◌then◌else◌,
}
use fair_os_dfs.Prelude.Result.{Result, ok, err}
use fair_os_dfs.Collection.Entries.{Entry, leaf_entry, intermediate_entry}
use fair_os_dfs.Collection.Manifests.{Manifest, IndexError, Backend, load_manifest}
use fair_os_dfs.Collection.Index.{Index, State}

abbrev no_entries : List Entry → Bool
no_entries [] = true
no_entries (e ∷ es) = false

module _ {S : Type 0} {D : Type 0} {E : Type 0} (b : Backend S D E) where
  -- The manifest in memory, if it has entries, or the one on disk.
  unfoldable pub in_memory : Index → Option Manifest → S → Result IndexError Manifest
  in_memory idx none s = load_manifest b idx.name s
  in_memory idx (some m) s = if no_entries m.entries then load_manifest b idx.name s else ok m

  -- func (idx *Index) IsEmpty, and what is in memory afterwards
  unfoldable pub is_empty : Index → Option Manifest → S → Result IndexError Bool × Option Manifest
  is_empty idx mem s = elim (in_memory idx mem s) [
    | err e ↦ (err e, mem)
    | ok m ↦ (ok (no_entries m.entries), some m)
  ]

  -- The loop of loadIndexAndCount over the entries: what the children have added, and the leaves so
  -- far, which are dropped when a child cannot be loaded.
  unfoldable pub count_loop : (Manifest → Option ℕ) → Manifest → List Entry → ℕ → ℕ → S → Option ℕ
  count_loop child_count m [] total leaves s = some ((total + leaves) % 2 ^ 64)
  count_loop child_count m (e ∷ es) total leaves s = elim e.e_type [
    | leaf_entry ↦ count_loop child_count m es total (leaves + 1) s
    | intermediate_entry ↦ elim (load_manifest b (m.name ++ e.name) s) [
      | err x ↦ some total
      | ok child ↦ elim (child_count child) [
        | none ↦ none
        | some n ↦ count_loop child_count m es ((total + n) % 2 ^ 64) leaves s
      ]
    ]
  ]

  -- func (idx *Index) loadIndexAndCount, on fuel for the depth of the children
  unfoldable pub load_index_and_count : ℕ → S → Manifest → Option ℕ
  load_index_and_count zero s m = none
  load_index_and_count (suc fuel) s m = count_loop (load_index_and_count fuel s) m m.entries 0 0 s

  -- func (idx *Index) CountIndex, where no entry in memory has its child in memory yet; and the count
  -- that the index keeps
  unfoldable pub count_index :
      ℕ → Index → Option Manifest → State S → Option (Result IndexError ℕ × ℕ)
  count_index fuel idx mem st = elim (in_memory idx mem st.files) [
    | err e ↦ some (err e, st.count)
    | ok m ↦
        if no_entries m.entries
        then some (ok 0, st.count)
        else elim (load_index_and_count fuel st.files m) [ none ↦ none | some n ↦ some (ok n, n) ]
  ]
