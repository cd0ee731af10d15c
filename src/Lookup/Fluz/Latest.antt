-- ===== src/Lookup/Fluz/Latest.antt =====
-- Over a feed's updates the search finds the latest one at or before `now`.
use fair_os_dfs.Prelude.{
  ℕ, zero, suc, ◌+◌, ◌*◌, ◌/◌, ◌^◌, ◌≤◌, ◌<◌, ◌≡◌, List, ◌∷◌, inl, inr, Option, none, some, arith,
  refl, ap, ◌∙◌,
}
use fair_os_dfs.Prelude.Result.{Result, ok, err}
use fair_os_dfs.Lookup.{Epoch, no_clue, worst_hint}
use fair_os_dfs.Lookup.Placement.{History, slots, History-IsTree}
use fair_os_dfs.Lookup.Tree.{Slots, Holds, IsTree, IsLatest}
use fair_os_dfs.Lookup.Fluz.{returns, Round-cases, round, search_loop, fluz_capacitor}
use fair_os_dfs.Lookup.Fluz.Termination.{fluz_capacitor_ends}
use fair_os_dfs.Lookup.Fluz.Slots.{Reads}
use fair_os_dfs.Lookup.Fluz.Invariant.{Keeps, Good}
use fair_os_dfs.Lookup.Fluz.Widen.{worst_round}
use fair_os_dfs.Lookup.Fluz.Narrow.{found_round}

module _ (s : Slots) (tree : IsTree s) (now : ℕ) where
  module _ {E : Type 0} (read : Epoch → ℕ → Result E (Option ℕ)) (reads : Reads s read)
      (fits : now < 2 ^ 64) where
    any_round :
        (hint : Epoch) (t : ℕ) (found : Option ℕ)
        → Keeps s tree now hint t found
        → Good s tree now (round read now hint t found)
    any_round hint t none (e, le, all) = rw e (worst_round s tree now read reads fits t le all)
    any_round hint t (some v) k = found_round s tree now read reads fits hint.time hint.level t v k

    abbrev Finds : Result E (Option ℕ) → Type 0
    Finds r = (a : Option ℕ) × (r ≡ ok a) × IsLatest s now a

    returned : (r : Result E (Option ℕ)) → Good s tree now (returns r) → Finds r
    unfolding Good
    returned (ok a) g = (a, refl, g)
    returned (err e) g = absurd g

    search_loop-IsLatest :
        (fuel : ℕ) (hint : Epoch) (t : ℕ) (found : Option ℕ) (r : Result E (Option ℕ))
        → Keeps s tree now hint t found
        → search_loop read now fuel hint t found ≡ some r
        → Finds r
    unfolding search_loop Good
    search_loop-IsLatest zero hint t found r k e = ground arith
    search_loop-IsLatest (suc fuel) hint t found r k e =
        let good = any_round hint t found k in
        elim (Round-cases (round read now hint t found)) [
          | inl (r', stop) ↦
              let same : r' ≡ r = cc (rw (stop, search_loop) at e) in
              rw same at (returned r' (rw stop at good))
          | inr (hint', t', found', go) ↦
              search_loop-IsLatest fuel hint' t' found' r (rw go at good)
                (rw (go, search_loop) at e)
        ]

-- From no clue, over any slots in which every update has an earlier one in its parent period and
-- any reader of them, the search at a 64-bit time ends within 34 * now + 66 rounds, without an
-- error, with the latest update at or before now, or with nothing if there is none.
pub fluz_capacitor-IsLatest :
    {E : Type 0} (s : Slots) (read : Epoch → ℕ → Result E (Option ℕ)) (now : ℕ)
    → IsTree s
    → Reads s read
    → now < 2 ^ 64
    → (a : Option ℕ) × (fluz_capacitor read now (34 * now + 66) no_clue ≡ some (ok a))
      × IsLatest s now a
unfolding fluz_capacitor
fluz_capacitor-IsLatest s read now tree reads fits =
    let (r, e) = fluz_capacitor_ends read now no_clue fits in
    let (a, same, latest) =
      search_loop-IsLatest s tree now read reads fits (34 * now + 66) worst_hint now none r
        (refl, omega arith, λ l x held before. before) e in
    (a, rw same at e, latest)

latest_unique :
    (s : Slots) (now l t : ℕ)
    → Holds s l t
    → ((l q x : ℕ) → s l q ≡ some x → x ≤ t)
    → t ≤ now
    → (a : Option ℕ) → IsLatest s now a
    → a ≡ some t
latest_unique s now l t held newest le none latest = absurd (omega (arith, latest l t held))
latest_unique s now l t held newest le (some v) (seen, (l', held'), latest) =
    let same : v ≡ t = omega (arith, newest l' (v / 2 ^ l') v held', latest l t held le) in rw same

-- Over a feed whose updates were placed by GetNextEpoch at increasing 64-bit times, a search from
-- no clue at any 64-bit time from the newest update on ends within 34 * now + 66 rounds with the
-- newest update.
pub fluz_capacitor_newest :
    {E : Type 0} {last : Epoch} {older : List Epoch} (read : Epoch → ℕ → Result E (Option ℕ))
    (now : ℕ)
    → History (last ∷ older)
    → Reads (slots (last ∷ older)) read
    → last.time ≤ now
    → now < 2 ^ 64
    → fluz_capacitor read now (34 * now + 66) no_clue ≡ some (ok (some last.time))
fluz_capacitor_newest {last} {older} read now h reads after fits =
    let (tree, held, newest, all) = History-IsTree h in
    let (a, found, latest) =
      fluz_capacitor-IsLatest (slots (last ∷ older)) read now tree reads fits in
    found
    ∙ ap (λ x. some (ok x))
        (latest_unique (slots (last ∷ older)) now last.level last.time held newest after a latest)
