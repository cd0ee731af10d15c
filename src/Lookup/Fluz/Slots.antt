-- ===== src/Lookup/Fluz/Slots.antt =====
-- What a hit or a miss in one slot says of all the updates of a feed.
use fair_os_dfs.Prelude.{
  ℕ, suc, ◌-◌, ◌*◌, ◌/◌, ◌^◌, ◌≤◌, ◌<◌, ◌≡◌, ◌⊎◌, inl, inr, Option, none, some, arith, ap, ◌∙◌, sym,
  leb, if◌then◌else◌,
}
use fair_os_dfs.Prelude.Result.{Result, ok}
use fair_os_dfs.Prelude.Bits.{shift_suc'}
use native.Mathlib.Decide.{dec_lt}
use fair_os_dfs.Lookup.{Epoch}
use fair_os_dfs.Lookup.Period.{period_le, period_lt, period_ge}
use fair_os_dfs.Lookup.Tree.{Slots, Holds, IsTree, ancestor}

-- The reader's contract: the update in the epoch's slot, unless its time is after `now`.
abbrev pub visible : ℕ → Option ℕ → Option ℕ
visible now none = none
visible now (some x) = if leb x now then some x else none

pub record Reads {ℓ} {E : Type ℓ} (s : Slots) (read : Epoch → ℕ → Result E (Option ℕ))
    : Type ℓ where
  pub at :
      (e : Epoch) (now : ℕ)
      → e.level ≤ 31
      → read e now ≡ ok (visible now (s e.level (e.time / 2 ^ e.level)))

pub hit_lem : (now : ℕ) (o : Option ℕ) (w : ℕ) → visible now o ≡ some w → (o ≡ some w) × (w ≤ now)
hit_lem now o w h = ground arith

module _ (s : Slots) (tree : IsTree s) (now : ℕ) where
  -- Nothing visible in the slot of `t` at level `m`: every update of that period comes after `now`
  -- or stands in a slot above level `m`.
  pub miss_lem :
      (m t l x : ℕ)
      → m ≤ 31
      → visible now (s m (t / 2 ^ m)) ≡ none
      → Holds s l x
      → l ≤ m
      → x / 2 ^ m ≡ t / 2 ^ m
      → now < x
  miss_lem m t l x top miss held below same =
      let (w, here, le) = ancestor s tree (m - l) l m x (omega arith) top held in
      let here' : s m (t / 2 ^ m) ≡ some w = rw same at here in ground (arith, here')

  -- So after a miss what is left lies before the period.
  pub back_lem :
      (m t l x : ℕ)
      → m ≤ 31
      → visible now (s m (t / 2 ^ m)) ≡ none
      → Holds s l x
      → l ≤ m
      → x ≤ now
      → x ≤ t
      → x < t / 2 ^ m * 2 ^ m
  back_lem m t l x top miss held below in_time before = elim (dec_lt x (t / 2 ^ m * 2 ^ m)) [
    | yes p ↦ p
    | no p ↦
        let same : x / 2 ^ m ≡ t / 2 ^ m =
          omega (arith, period_le m x t before, period_ge m (t / 2 ^ m) x (omega arith)) in
        absurd (omega (arith, miss_lem m t l x top miss held below same))
  ]

  -- After a hit `w` an update up to `t` is not after `w`, or stands below it.
  pub forward_lem :
      (m t l x w : ℕ)
      → s m (t / 2 ^ m) ≡ some w
      → Holds s l x
      → l ≤ m
      → x ≤ t
      → (x ≤ w) ⊎ ((l < m) × (x ≤ t) × (x / 2 ^ m ≡ t / 2 ^ m))
  forward_lem m t l x w slot held below before =
      let w_period = (tree.in_period m (t / 2 ^ m) w slot).0 in
      elim (dec_lt (x / 2 ^ m) (t / 2 ^ m)) [
        | yes earlier ↦ inl (omega (arith, period_lt m x w (omega arith)))
        | no p ↦ elim (dec_lt l m) [
          | yes lower ↦ inr (lower, before, omega (arith, period_le m x t before))
          | no level ↦
              let same : x / 2 ^ m ≡ t / 2 ^ m = omega (arith, period_le m x t before) in
              let l_is_m : l ≡ m = omega arith in
              let held' : s m (x / 2 ^ m) ≡ some x = rw l_is_m at held in
              inl (ground (arith, (rw same at held'), slot))
        ]
      ]

  pub parent_lt :
      (m t v w : ℕ) → m < 31 → s m (t / 2 ^ m) ≡ some w → s (suc m) (t / 2 ^ suc m) ≡ some v → v < w
  parent_lt m t v w lt slot above =
      let same : w / 2 ^ m ≡ t / 2 ^ m = (tree.in_period m (t / 2 ^ m) w slot).0 in
      let up : w / 2 ^ suc m ≡ t / 2 ^ suc m =
        shift_suc' w m ∙ ap (λ (x : ℕ). x / 2) same ∙ sym (shift_suc' t m) in
      let (p, parent, before) = tree.has_parent m w (rw same slot) lt in
      ground (arith, (rw up at parent), above, before)
