-- ===== src/Lookup/Fluz/Invariant.antt =====
-- The invariant of the search loop over a feed's slots.
use fair_os_dfs.Prelude.{ℕ, ◌/◌, ◌^◌, ◌≤◌, ◌<◌, ◌≡◌, ◌⊎◌, Option, none, some}
use fair_os_dfs.Prelude.Result.{ok, err}
use fair_os_dfs.Lookup.{Epoch, worst_hint}
use fair_os_dfs.Lookup.Tree.{Slots, Holds, IsTree, IsLatest}
use fair_os_dfs.Lookup.Fluz.{Round, returns, continues}

module _ (s : Slots) (tree : IsTree s) (now : ℕ) where
  -- The loop's invariant.
  abbrev pub Keeps : Epoch → ℕ → Option ℕ → Type 0
  Keeps hint t none = (hint ≡ worst_hint) × (t ≤ now) × ((l x : ℕ) → Holds s l x → x ≤ now → x ≤ t)
  Keeps hint t (some v) =
      (hint.time < 2 ^ 64)
      × (1 ≤ hint.level)
      × (hint.level ≤ 31)
      × (t / 2 ^ hint.level ≡ hint.time / 2 ^ hint.level)
      × (s hint.level (t / 2 ^ hint.level) ≡ some v)
      × (v ≤ now)
      × (t ≤ now)
      × ((l x : ℕ)
          → Holds s l x
          → x ≤ now
          → (x ≤ v) ⊎ ((l < hint.level) × (x ≤ t) × (x / 2 ^ hint.level ≡ t / 2 ^ hint.level)))

  unfoldable pub Good : {E : Type 0} → Round E ℕ → Type 0
  Good (returns (ok r)) = IsLatest s now r
  Good (returns (err e)) = ⊥
  Good (continues hint t found) = Keeps hint t found
