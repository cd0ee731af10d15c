-- ===== src/Lookup/Fluz/Widen.antt =====
-- Rounds from the worst hint keep the invariant.
use fair_os_dfs.Prelude.{
  ℕ, ◌*◌, ◌/◌, ◌^◌, ◌≤◌, ◌<◌, ◌≡◌, inl, inr, Option, none, some, arith, refl, ap, ◌∙◌, ◌==◌,
  Bool-cases, Option-cases, ==_iff,
}
use fair_os_dfs.Prelude.Result.{Result, ok}
use native.Mathlib.Decide.{dec_lt}
use fair_os_dfs.Lookup.{Epoch, base, equals, worst_hint}
use fair_os_dfs.Lookup.Period.{period_start}
use fair_os_dfs.Lookup.Tree.{Slots, Holds, IsTree}
use fair_os_dfs.Lookup.Fluz.{after_read, round_lem, round}
use fair_os_dfs.Lookup.Fluz.Slots.{Reads, visible, hit_lem, back_lem, forward_lem}
use fair_os_dfs.Lookup.Fluz.Epochs.{next_worst, base_at, base_worst}
use fair_os_dfs.Lookup.Fluz.Invariant.{Good}

abbrev top_epoch : ℕ → Epoch
top_epoch t = record { time = t; level = 31 }

module _ (s : Slots) (tree : IsTree s) (now : ℕ) where
  module _ {E : Type 0} (read : Epoch → ℕ → Result E (Option ℕ)) (reads : Reads s read)
      (fits : now < 2 ^ 64) where
    pub worst_missed :
        (t : ℕ)
        → t ≤ now
        → ((l x : ℕ) → Holds s l x → x ≤ now → x ≤ t)
        → visible now (s 31 (t / 2 ^ 31)) ≡ none
        → Good s tree now (after_read read now (ok none) (top_epoch t) worst_hint t none)
    unfolding Good after_read
    worst_missed t le all miss = elim (Bool-cases (t / 2 ^ 31 * 2 ^ 31 == 0)) [
      | inl first ↦
          rw (start, base_worst, first)
            (λ l x held. elim (dec_lt now x) [
              | yes p ↦ p
              | no p ↦ absurd (
                  omega
                    (arith, (==_iff (t / 2 ^ 31 * 2 ^ 31) 0).0 first, left l x held (omega arith)))
            ])
      | inr later ↦
          rw (start, base_worst, later)
            (
              refl,
              omega (arith, period_start 31 t),
              λ l x held before. omega (arith, left l x held before),
            )
    ]
      where
        start : base (top_epoch t) ≡ t / 2 ^ 31 * 2 ^ 31
        start = base_at t 31 (omega arith) (omega arith)

        left : (l x : ℕ) → Holds s l x → x ≤ now → x < t / 2 ^ 31 * 2 ^ 31
        left l x held before =
            back_lem s tree now 31 t l x (omega arith) miss held
              (tree.in_period l (x / 2 ^ l) x held).1 before (all l x held before)

    pub worst_hit :
        (t w : ℕ)
        → t ≤ now
        → ((l x : ℕ) → Holds s l x → x ≤ now → x ≤ t)
        → visible now (s 31 (t / 2 ^ 31)) ≡ some w
        → Good s tree now (after_read read now (ok (some w)) (top_epoch t) worst_hint t none)
    unfolding Good after_read equals
    worst_hit t w le all hit =
        let (slot, in_time) = hit_lem now (s 31 (t / 2 ^ 31)) w hit in
        (
          omega arith,
          omega arith,
          omega arith,
          refl,
          slot,
          in_time,
          le,
          λ l x held before.
              forward_lem s tree now 31 t l x w slot held (tree.in_period l (x / 2 ^ l) x held).1
                (all l x held before),
        )

    pub worst_round :
        (t : ℕ)
        → t ≤ now
        → ((l x : ℕ) → Holds s l x → x ≤ now → x ≤ t)
        → Good s tree now (round read now worst_hint t none)
    unfolding Good after_read
    worst_round t le all = elim (Option-cases (visible now (s 31 (t / 2 ^ 31)))) [
      | inl miss ↦ rw (step none miss) (worst_missed t le all miss)
      | inr (w, hit) ↦ rw (step (some w) hit) (worst_hit t w le all hit)
    ]
      where
        top : Epoch
        top = record { time = t; level = 31 }

        step :
            (o : Option ℕ)
            → visible now (s 31 (t / 2 ^ 31)) ≡ o
            → round read now worst_hint t none ≡ after_read read now (ok o) top worst_hint t none
        step o e =
            round_lem read now top worst_hint t none (ok o) (next_worst t)
              (reads.at top now (omega arith) ∙ ap ok e)
