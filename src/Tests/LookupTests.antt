-- ===== src/Tests/LookupTests.antt =====
-- Instances for the feed lookup: two updates of one feed, at 1000 and 1005 seconds.
use mathlib.Core.List.{Memᴰ}
use fair_os_dfs.Prelude.{
  ℕ, suc, ◌+◌, ◌*◌, ◌/◌, ◌%◌, ◌^◌, ◌≤◌, ◌<◌, ◌≡◌, ◌≢◌, ◌↔◌, true, refl, Option, some, List, [], ◌∷◌,
  arith,
}
use fair_os_dfs.Prelude.Result.{Result, ok}
use fair_os_dfs.Lookup.{
  Epoch, no_clue, highest_level, base, equals, get_first_epoch, get_next_epoch, get_next_level,
  get_base_time, mix_bits, scan_mask,
}
use fair_os_dfs.Lookup.BaseTime.{IsEpoch, base_bounds}
use fair_os_dfs.Lookup.NextLevel.{get_next_level_same_period, get_next_level_nearest}
use fair_os_dfs.Lookup.Codec.{
  EpochError, uint_le, id, marshal_binary, unmarshal_binary, unmarshal_binary-marshal_binary,
  id_iff,
}
use fair_os_dfs.Lookup.Tree.{Holds, IsTree, IsLatest}
use fair_os_dfs.Lookup.Placement.{History, created, updated, slots, History-IsTree}
use fair_os_dfs.Lookup.Fluz.{fluz_capacitor}
use fair_os_dfs.Lookup.Fluz.Slots.{Reads, visible}
use fair_os_dfs.Lookup.Fluz.Termination.{fluz_capacitor_ends}
use fair_os_dfs.Lookup.Fluz.Latest.{fluz_capacitor-IsLatest, fluz_capacitor_newest}

abbrev first : Epoch
first = get_first_epoch 1000

abbrev second : Epoch
second = get_next_epoch first 1005

first_lem : first ≡ record { time = 1000; level = 31 }
unfolding get_first_epoch
first_lem = refl

second_lem : second ≡ record { time = 1005; level = 30 }
unfolding get_first_epoch get_next_epoch get_next_level base get_base_time mix_bits scan_mask
second_lem = refl

abbrev updates : List Epoch
updates = second ∷ first ∷ []

updates-History : History updates
unfolding get_first_epoch
updates-History = updated 1005 (created 1000 (omega arith)) (omega arith) (omega arith)

abbrev reader : Epoch → ℕ → Result EpochError (Option ℕ)
reader e now = ok (visible now (slots updates e.level (e.time / 2 ^ e.level)))

reader-Reads : Reads (slots updates) reader
reader-Reads = record { at = λ e now h. refl }

second_time : second.time ≤ 2000
second_time = rw second_lem (omega arith)

fluz_capacitor_newest_example :
    fluz_capacitor reader 2000 (34 * 2000 + 66) no_clue ≡ some (ok (some second.time))
fluz_capacitor_newest_example =
    fluz_capacitor_newest reader 2000 updates-History reader-Reads second_time (omega arith)

fluz_capacitor-IsLatest_example :
    (a : Option ℕ) × (fluz_capacitor reader 2000 (34 * 2000 + 66) no_clue ≡ some (ok a))
    × IsLatest (slots updates) 2000 a
fluz_capacitor-IsLatest_example =
    fluz_capacitor-IsLatest (slots updates) reader 2000 (History-IsTree updates-History).0
      reader-Reads (omega arith)

History-IsTree_example :
    IsTree (slots updates)
    × Holds (slots updates) second.level second.time
    × ((l q x : ℕ) → slots updates l q ≡ some x → x ≤ second.time)
    × ((e : Epoch) → Memᴰ e updates → slots updates e.level (e.time / 2 ^ e.level) ≡ some e.time)
History-IsTree_example = History-IsTree updates-History

fluz_capacitor_ends_example :
    (r : Result EpochError (Option ℕ)) × (fluz_capacitor reader 1002 (34 * 1002 + 66) second
      ≡ some r)
fluz_capacitor_ends_example = fluz_capacitor_ends reader 1002 second (omega arith)

abbrev sixth : Epoch
sixth = record { time = 1000; level = 6 }

sixth-IsEpoch : IsEpoch sixth
sixth-IsEpoch = record { time_fits = omega arith; level_fits = omega arith }

base_bounds_example : (base sixth % 2 ^ 6 ≡ 0) × (base sixth ≤ 1000) × (1000 < base sixth + 2 ^ 6)
base_bounds_example = base_bounds sixth sixth-IsEpoch

get_next_level_same_period_example : get_next_level sixth 1010 ≡ 5
get_next_level_same_period_example =
    get_next_level_same_period sixth 1010 sixth-IsEpoch (omega arith) (omega arith)

get_next_level_nearest_example :
    (get_next_level sixth 5000 < highest_level
      → 5000 / 2 ^ suc (get_next_level sixth 5000)
        ≡ base sixth / 2 ^ suc (get_next_level sixth 5000))
    × (6 ≤ get_next_level sixth 5000
        → 0 < get_next_level sixth 5000
        → 5000 / 2 ^ get_next_level sixth 5000 ≢ base sixth / 2 ^ get_next_level sixth 5000)
get_next_level_nearest_example = get_next_level_nearest sixth 5000 (omega arith)

unmarshal_binary-marshal_binary_example :
    unmarshal_binary (marshal_binary sixth) ≡ ok (record { time = 1000; level = 6 })
unmarshal_binary-marshal_binary_example = unmarshal_binary-marshal_binary sixth

abbrev sixth_bytes : List ℕ
sixth_bytes = 232 ∷ 3 ∷ 0 ∷ 0 ∷ 0 ∷ 0 ∷ 0 ∷ 6 ∷ []

sixth_bytes_lem : unmarshal_binary sixth_bytes ≡ ok sixth
unfolding unmarshal_binary uint_le
sixth_bytes_lem = refl

sixth_start : base sixth ≡ 960
unfolding base get_base_time
sixth_start = refl

abbrev later_in_sixth : Epoch
later_in_sixth = record { time = 1010; level = 6 }

later_start : base later_in_sixth ≡ 960
unfolding base get_base_time
later_start = refl

id_iff_example : (id sixth ≡ id later_in_sixth) ↔ (equals sixth later_in_sixth ≡ true)
id_iff_example =
    id_iff sixth later_in_sixth (omega (arith, sixth_start)) (omega (arith, later_start))
