-- ===== src/Lookup/Tree.antt =====
-- What the updates of a feed look like to a lookup: a slot for each level and period, and every
-- update's parent period holds an earlier update.
use fair_os_dfs.Prelude.{
  ℕ, zero, suc, ◌+◌, ◌/◌, ◌^◌, ◌≤◌, ◌<◌, ◌≡◌, Option, none, some, arith, ap, ◌∙◌, sym,
}
use fair_os_dfs.Prelude.Bits.{shift_suc'}
use fair_os_dfs.Lookup.{highest_level}

-- The time of the update in the period `q` of level `l`, which lasts 2 ^ l seconds.
abbrev pub Slots : Type 0
Slots = ℕ → ℕ → Option ℕ

abbrev pub Holds : Slots → ℕ → ℕ → Type 0
Holds s l x = s l (x / 2 ^ l) ≡ some x

pub record IsTree (s : Slots) : Type 0 where
  pub in_period : (l q x : ℕ) → s l q ≡ some x → (x / 2 ^ l ≡ q) × (l ≤ highest_level)
  pub has_parent :
      (l x : ℕ)
      → Holds s l x
      → l < highest_level
      → (w : ℕ) × (s (suc l) (x / 2 ^ suc l) ≡ some w) × (w < x)

module _ (s : Slots) (tree : IsTree s) where
  -- Every period of an update's path to the top holds an update that is not later.
  pub ancestor :
      (n l m x : ℕ)
      → l + n ≡ m
      → m ≤ highest_level
      → Holds s l x
      → (w : ℕ) × (s m (x / 2 ^ m) ≡ some w) × (w ≤ x)
  ancestor zero l m x e h held = let e' : l ≡ m = omega arith in (x, rw e' at held, omega arith)
  ancestor (suc n) l zero x e h held = absurd (omega arith)
  ancestor (suc n) l (suc m) x e h held =
      let (w, here, le) = ancestor n l m x (omega arith) (omega arith) held in
      let same : w / 2 ^ m ≡ x / 2 ^ m = (tree.in_period m (x / 2 ^ m) w here).0 in
      let (v, above, lt) = tree.has_parent m w (rw same here) (omega arith) in
      let up : w / 2 ^ suc m ≡ x / 2 ^ suc m =
        shift_suc' w m ∙ ap (λ (t : ℕ). t / 2) same ∙ sym (shift_suc' x m) in
      (v, rw up at above, omega arith)

-- `r` is the latest update at or before `now`, or there is none.
abbrev pub IsLatest : Slots → ℕ → Option ℕ → Type 0
IsLatest s now none = (l x : ℕ) → Holds s l x → now < x
IsLatest s now (some v) =
    (v ≤ now) × ((l : ℕ) × Holds s l v) × ((l x : ℕ) → Holds s l x → x ≤ now → x ≤ v)
