-- ===== src/Lookup/Fluz/Termination.antt =====
-- The search ends: a bound on its rounds, and enough fuel.
use fair_os_dfs.Prelude.{
  ℕ, zero, suc, ◌+◌, ◌*◌, ◌/◌, inl, inr, ◌^◌, ◌≤◌, ◌<◌, ◌≡◌, Bool, false, not, ◌&&◌, Option, none,
  some, arith, leb, ◌==◌, if◌then◌else◌, ◌-◌, ◌≢◌, true, Bool-cases,
}
use fair_os_dfs.Prelude.Result.{Result}
use fair_os_dfs.Lookup.{Epoch, base, epoch_eq, no_clue, worst_hint, get_next_epoch}
use fair_os_dfs.Lookup.BaseTime.{IsEpoch, base_bounds}
use fair_os_dfs.Lookup.NextLevel.{get_next_level-le, get_next_level_same_period}
use fair_os_dfs.Lookup.Fluz.{continues, Round-cases, round, search_loop, fluz_capacitor}

abbrev is_none {κ} : {V : Type κ} → Option V → Bool
is_none none = true
is_none (some v) = false

-- How far below the top the hint is, while it is an epoch just found at `t`.
level_rank : Epoch → ℕ → ℕ
level_rank hint t = if hint.time == t && leb hint.level 31 then hint.level else 32

-- One restart is left until something is found or the worst hint is in use.
restart_rank : Epoch → Bool → ℕ
restart_rank hint fresh = if fresh && not (epoch_eq hint worst_hint) then 33 else 0

rank : Epoch → ℕ → Bool → ℕ
unfolding level_rank restart_rank
rank hint t fresh = 34 * t + level_rank hint t + restart_rank hint fresh

pub get_next_epoch_lem :
    (hint : Epoch) (t : ℕ)
    → ((get_next_epoch hint t).time ≡ t) × ((get_next_epoch hint t).level ≤ 31)
unfolding get_next_epoch
get_next_epoch_lem hint t = ground (arith, get_next_level-le hint t)

next_base-le : (hint : Epoch) (t : ℕ) → t < 2 ^ 64 → base (get_next_epoch hint t) ≤ t
next_base-le hint t fits =
    let facts = get_next_epoch_lem hint t in
    let valid : IsEpoch (get_next_epoch hint t) = record {
      time_fits = omega arith;
      level_fits = omega arith;
    } in
    omega (arith, base_bounds (get_next_epoch hint t) valid)

-- Where a hit does not end the search, the hint's level rank falls.
level_rank_falls :
    (hint : Epoch) (t : ℕ)
    → epoch_eq hint no_clue ≡ false
    → t < 2 ^ 64
    → (get_next_epoch hint t).level ≢ 0
    → level_rank (get_next_epoch hint t) t < level_rank hint t
unfolding level_rank get_next_epoch
level_rank_falls hint t clue fits up = elim (Bool-cases (hint.time == t && leb hint.level 31)) [
  | inl again ↦
      let valid : IsEpoch hint = record { time_fits = ground arith; level_fits = ground arith } in
      let same : t / 2 ^ hint.level ≡ hint.time / 2 ^ hint.level = ground arith in
      ground (arith, get_next_level_same_period hint t valid (ground arith) same)
  | inr fresh ↦ ground (arith, get_next_level-le hint t)
]

level_rank-le : (hint : Epoch) (t : ℕ) → level_rank hint t ≤ 32
unfolding level_rank
level_rank-le hint t = ground arith

rank_narrow :
    (hint : Epoch) (t : ℕ) (fresh : Bool)
    → epoch_eq hint no_clue ≡ false
    → t < 2 ^ 64
    → (get_next_epoch hint t).level ≢ 0
    → rank (get_next_epoch hint t) t false < rank hint t fresh
unfolding rank
rank_narrow hint t fresh clue fits up = omega (arith, level_rank_falls hint t clue fits up)

rank_back :
    (hint : Epoch) (b t : ℕ) (fresh : Bool)
    → b ≢ 0
    → b ≤ t
    → rank hint (b - 1) fresh < rank hint t fresh
unfolding rank
rank_back hint b t fresh pos le = omega (arith, level_rank-le hint (b - 1))

rank_restart :
    (hint : Epoch) (b t : ℕ)
    → b ≤ t
    → epoch_eq hint worst_hint ≡ false
    → rank worst_hint b true < rank hint t true
unfolding rank restart_rank
rank_restart hint b t le other = rw other (omega (arith, level_rank-le worst_hint b))

abbrev first_hint : Epoch → Epoch
first_hint hint = if epoch_eq hint no_clue then worst_hint else hint

first_hint_lem : (hint : Epoch) → epoch_eq (first_hint hint) no_clue ≡ false
first_hint_lem hint = ground arith

rank-lt : (hint : Epoch) (t : ℕ) → rank hint t true < 34 * t + 66
unfolding rank restart_rank
rank-lt hint t = ground (arith, level_rank-le hint t)

module _ {ℓ κ} {E : Type ℓ} {V : Type κ} (read : Epoch → ℕ → Result E (Option V)) (now : ℕ) where
  -- Every round that goes on has a smaller rank.
  round_falls :
      (hint : Epoch) (t : ℕ) (found : Option V) (hint' : Epoch) (t' : ℕ) (found' : Option V)
      → epoch_eq hint no_clue ≡ false
      → t < 2 ^ 64
      → round read now hint t found ≡ continues hint' t' found'
      → (epoch_eq hint' no_clue ≡ false)
        × (t' < 2 ^ 64)
        × (rank hint' t' (is_none found') < rank hint t (is_none found))
  unfolding round
  round_falls hint t found hint' t' found' clue fits goes = ground (
    arith,
    next_base-le hint t fits,
    get_next_epoch_lem hint t,
    rank_narrow hint t (is_none found) clue fits,
    rank_back hint (base (get_next_epoch hint t)) t (is_none found),
    rank_restart hint (base hint) t,
  )

  search_loop_ends :
      (fuel : ℕ) (hint : Epoch) (t : ℕ) (found : Option V)
      → epoch_eq hint no_clue ≡ false
      → t < 2 ^ 64
      → rank hint t (is_none found) < fuel
      → (r : Result E (Option V)) × (search_loop read now fuel hint t found ≡ some r)
  unfolding search_loop
  search_loop_ends zero hint t found clue fits enough = elim enough [ ]
  search_loop_ends (suc fuel) hint t found clue fits enough =
      elim (Round-cases (round read now hint t found)) [
        | inl (r, e) ↦ (r, rw (e, search_loop))
        | inr (hint', t', found', e) ↦
            let falls = round_falls hint t found hint' t' found' clue fits e in
            rw (e, search_loop)
              (search_loop_ends fuel hint' t' found' falls.0 falls.1 (omega (arith, falls.2)))
      ]

  -- From any hint, at a 64-bit time and with any reader, the search ends within 34 * now + 66
  -- rounds.
  pub fluz_capacitor_ends :
      (hint : Epoch)
      → now < 2 ^ 64
      → (r : Result E (Option V)) × (fluz_capacitor read now (34 * now + 66) hint ≡ some r)
  unfolding fluz_capacitor
  fluz_capacitor_ends hint fits =
      search_loop_ends (34 * now + 66) (first_hint hint) now none (first_hint_lem hint) fits
        (rank-lt (first_hint hint) now)
