-- ===== src/Lookup/Fluz.antt =====
-- pkg/feed/lookup/algorithm_fluzcapacitor.go: the sequential search for the latest update.
-- `read` is the caller's ReadFunc at a fixed feed, an argument; the context is left out.
pub mod Termination
pub mod Slots
mod Epochs
mod Invariant
mod Widen
mod Narrow
pub mod Latest
use fair_os_dfs.Prelude.{
  ℕ, zero, suc, ◌-◌, ◌≡◌, refl, ◌⊎◌, inl, inr, Bool, ◌||◌, Option, none, some, ◌==◌, if◌then◌else◌,
}
use fair_os_dfs.Prelude.Result.{Result, ok, err}
use fair_os_dfs.Lookup.{
  Epoch, base, equals, epoch_eq, no_clue, worst_hint, lowest_level, get_next_epoch,
}

-- One round of `for { ... }`: a `return`, or a `continue` with `hint`, `t` and `lastFound`.
pub data Round {ℓ κ} (E : Type ℓ) (V : Type κ) : Type (ℓ ⊔ κ) where
  returns : Result E (Option V) → Round E V
  continues : Epoch → ℕ → Option V → Round E V

pub Round-cases {ℓ κ} :
    {E : Type ℓ} {V : Type κ} (o : Round E V)
    → ((r : Result E (Option V)) × (o ≡ returns r))
      ⊎ ((hint : Epoch) × (t : ℕ) × (found : Option V) × (o ≡ continues hint t found))
Round-cases (returns r) = inl (r, refl)
Round-cases (continues hint t found) = inr (hint, t, found, refl)

module _ {ℓ κ} {E : Type ℓ} {V : Type κ} (read : Epoch → ℕ → Result E (Option V)) (now : ℕ) where
  -- "check it out": the hint itself is read, and a bad one is replaced by the worst.
  pub check_hint : Epoch → Round E V
  check_hint hint = elim (read hint now) [
    | err e ↦ returns (err e)
    | ok (some v) ↦ returns (ok (some v))
    | ok none ↦ continues worst_hint (base hint) none
  ]

  -- `epoch.Base() == hint.Base()` after a miss
  pub at_hint : Epoch → Option V → Round E V
  unfolding check_hint
  at_hint hint (some v) = returns (ok (some v))
  at_hint hint none = if epoch_eq hint worst_hint then returns (ok none) else check_hint hint

  -- The rest of the round, from what `read` gave for the epoch.
  pub after_read : Result E (Option V) → Epoch → Epoch → ℕ → Option V → Round E V
  unfolding at_hint
  after_read (err e) epoch hint t last_found = returns (err e)
  after_read (ok (some v)) epoch hint t last_found =
      if epoch.level == lowest_level || equals epoch hint
      then returns (ok (some v))
      else continues epoch t (some v)
  after_read (ok none) epoch hint t last_found =
      if base epoch == base hint
      then at_hint hint last_found
      else if base epoch == 0
      then returns (ok none)
      else continues hint (base epoch - 1) last_found

  pub round : Epoch → ℕ → Option V → Round E V
  unfolding after_read
  round hint t last_found =
      let epoch = get_next_epoch hint t in after_read (read epoch now) epoch hint t last_found

  pub round_lem :
      (epoch hint : Epoch) (t : ℕ) (last_found : Option V) (r : Result E (Option V))
      → get_next_epoch hint t ≡ epoch
      → read epoch now ≡ r
      → round hint t last_found ≡ after_read r epoch hint t last_found
  unfolding round
  round_lem epoch hint t last_found r e h = rw (e, h)

  -- The loop; `none` when the fuel runs out.
  pub search_loop : ℕ → Epoch → ℕ → Option V → Option (Result E (Option V))
  search_loop zero hint t last_found = none
  search_loop (suc fuel) hint t last_found = elim (round hint t last_found) [
    | returns r ↦ some r
    | continues hint' t' found ↦ search_loop fuel hint' t' found
  ]

  -- func FluzCapacitorAlgorithm(ctx, now, hint, read)
  pub fluz_capacitor : ℕ → Epoch → Option (Result E (Option V))
  unfolding search_loop
  fluz_capacitor fuel hint =
      search_loop fuel (if epoch_eq hint no_clue then worst_hint else hint) now none
