-- ===== src/Lookup/Fluz/Narrow.antt =====
-- Rounds from an epoch that was found keep the invariant.
use fair_os_dfs.Prelude.{
  ℕ, zero, suc, ◌-◌, ◌*◌, ◌/◌, ◌^◌, ◌≤◌, ◌<◌, ◌≡◌, ◌≢◌, ◌⊎◌, inl, inr, Option, none, some, arith,
  refl, ap, ◌∙◌, sym, false, ◌==◌, Bool-cases, Option-cases, ==_iff,
}
use fair_os_dfs.Prelude.Result.{Result, ok}
use native.Mathlib.Nat.{one-le-pow}
use fair_os_dfs.Lookup.{Epoch, base, equals}
use fair_os_dfs.Lookup.Period.{period_start, period_eq, period_end, nested}
use fair_os_dfs.Lookup.Tree.{Slots, Holds, IsTree}
use fair_os_dfs.Lookup.Fluz.{after_read, round_lem, round}
use fair_os_dfs.Lookup.Fluz.Slots.{Reads, visible, hit_lem, back_lem, forward_lem, parent_lt}
use fair_os_dfs.Lookup.Fluz.Epochs.{next_found, base_at, half_differs}
use fair_os_dfs.Lookup.Fluz.Invariant.{Keeps, Good}

module _ (s : Slots) (tree : IsTree s) (now : ℕ) where
  module _ {E : Type 0} (read : Epoch → ℕ → Result E (Option ℕ)) (reads : Reads s read)
      (fits : now < 2 ^ 64) where
    abbrev pub found_hint : ℕ → ℕ → Epoch
    found_hint ht m = record { time = ht; level = suc m }

    pub found_missed :
        (ht m t v : ℕ)
        → Keeps s tree now (found_hint ht m) t (some v)
        → visible now (s m (t / 2 ^ m)) ≡ none
        → Good s tree now (
            after_read read now
              (ok none)
              (record { time = t; level = m })
              (found_hint ht m)
              t
              (some v))
    unfolding Good after_read
    found_missed ht m t v (htf, lo, hi, same, slot, seen, le, all) miss =
        elim (Bool-cases (t / 2 ^ m * 2 ^ m == t / 2 ^ suc m * 2 ^ suc m)) [
          | inl first ↦
              rw (start, parent_start, first)
                (
                  seen,
                  (suc m, rw (tree.in_period (suc m) (t / 2 ^ suc m) v slot).0 slot),
                  λ l x held before. elim (all l x held before) [
                    | inl earlier ↦ earlier
                    | inr (lower, up, per) ↦ absurd (
                        omega (
                          arith,
                          (==_iff _ _).0 first,
                          left l x held lower before up,
                          period_start (suc m) x,
                          ap (λ (q : ℕ). q * 2 ^ suc m) per,
                        ))
                  ],
                )
          | inr later ↦
              rw (start, parent_start, later, (not_first (ground arith)))
                (
                  htf,
                  lo,
                  hi,
                  per (ground arith),
                  rw (per (ground arith) ∙ sym same) slot,
                  seen,
                  omega (arith, period_start m t),
                  λ l x held before. elim (all l x held before) [
                    | inl earlier ↦ inl earlier
                    | inr (lower, up, within) ↦ inr (
                      lower,
                      omega (arith, left l x held lower before up),
                      within ∙ same ∙ sym (per (ground arith)),
                    )
                  ],
                )
        ]
      where
        start : base (record { time = t; level = m }) ≡ t / 2 ^ m * 2 ^ m
        start = base_at t m (omega arith) (omega arith)

        parent_start : base (found_hint ht m) ≡ t / 2 ^ suc m * 2 ^ suc m
        parent_start = base_at ht (suc m) htf hi ∙ ap (λ (q : ℕ). q * 2 ^ suc m) (sym same)

        not_first : t / 2 ^ m * 2 ^ m ≢ t / 2 ^ suc m * 2 ^ suc m → (t / 2 ^ m * 2 ^ m == 0) ≡ false
        not_first ne = ground (arith, nested m t)

        per :
            t / 2 ^ m * 2 ^ m ≢ t / 2 ^ suc m * 2 ^ suc m
            → (t / 2 ^ m * 2 ^ m - 1) / 2 ^ suc m ≡ ht / 2 ^ suc m
        per ne =
            period_eq (suc m) (t / 2 ^ suc m) (t / 2 ^ m * 2 ^ m - 1) (omega (arith, nested m t)) (
              omega
                (arith, period_start m t, period_end (suc m) t, one-le-pow (suc m) 2 (omega arith)))
            ∙ same

        left : (l x : ℕ) → Holds s l x → l < suc m → x ≤ now → x ≤ t → x < t / 2 ^ m * 2 ^ m
        left l x held lower = back_lem s tree now m t l x (omega arith) miss held (omega arith)

    pub found_hit :
        (ht m t v w : ℕ)
        → Keeps s tree now (found_hint ht m) t (some v)
        → visible now (s m (t / 2 ^ m)) ≡ some w
        → Good s tree now (
            after_read read now
              (ok (some w))
              (record { time = t; level = m })
              (found_hint ht m)
              t
              (some v))
    unfolding Good after_read equals
    found_hit ht m t v w (htf, lo, hi, same, slot, seen, le, all) hit = elim (Bool-cases (m == 0)) [
      | inl last ↦ rw last (
        in_time,
        (m, rw (tree.in_period m (t / 2 ^ m) w here).0 here),
        λ l x held before. elim (covered l x held before) [
          | inl earlier ↦ earlier
          | inr (lower, up, per) ↦ absurd (omega (arith, (==_iff m 0).0 last))
        ],
      )
      | inr more ↦
          rw (more, half_differs ht m t)
            (omega arith, ground arith, omega arith, refl, here, in_time, le, covered)
    ]
      where
        here : s m (t / 2 ^ m) ≡ some w
        here = (hit_lem now (s m (t / 2 ^ m)) w hit).0

        in_time : w ≤ now
        in_time = (hit_lem now (s m (t / 2 ^ m)) w hit).1

        covered :
            (l x : ℕ)
            → Holds s l x
            → x ≤ now
            → (x ≤ w) ⊎ ((l < m) × (x ≤ t) × (x / 2 ^ m ≡ t / 2 ^ m))
        covered l x held before = elim (all l x held before) [
          | inl earlier ↦ inl (omega (arith, parent_lt s tree now m t v w (omega arith) here slot))
          | inr (lower, up, per) ↦ forward_lem s tree now m t l x w here held (omega arith) up
        ]

    pub found_round :
        (ht l t v : ℕ)
        → Keeps s tree now (record { time = ht; level = l }) t (some v)
        → Good s tree now (round read now (record { time = ht; level = l }) t (some v))
    found_round ht zero t v k = absurd (omega (arith, k.1))
    found_round ht (suc m) t v k = elim (Option-cases (visible now (s m (t / 2 ^ m)))) [
      | inl miss ↦ rw (step none miss) (found_missed ht m t v k miss)
      | inr (w, hit) ↦ rw (step (some w) hit) (found_hit ht m t v w k hit)
    ]
      where
        half : Epoch
        half = record { time = t; level = m }

        step :
            (o : Option ℕ)
            → visible now (s m (t / 2 ^ m)) ≡ o
            → round read now (found_hint ht m) t (some v)
              ≡ after_read read now (ok o) half (found_hint ht m) t (some v)
        step o e =
            round_lem read now half (found_hint ht m) t (some v) (ok o)
              (next_found ht m t k.0 k.2 k.3) (reads.at half now (omega (arith, k.2)) ∙ ap ok e)
