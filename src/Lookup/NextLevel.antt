-- ===== src/Lookup/NextLevel.antt =====
-- GetNextLevel of pkg/feed/lookup/lookup.go: which level the next update goes to.
use fair_os_dfs.Prelude.{
  ℕ, zero, suc, ◌+◌, ◌-◌, ◌/◌, ◌%◌, ◌^◌, ◌≤◌, ◌<◌, ◌≡◌, ◌≢◌, ◌⊎◌, inl, inr, ap, ◌∙◌, sym, refl,
  bit_and, bit_or, bit_xor, true, false, arith, ltb, ◌==◌, Bool-cases,
}
use fair_os_dfs.Prelude.Bits.{
  bit_and_bit, bit_or-shift, bit_xor-shift, bit_xor-eq-zero, bit_xor_self, bit_or_ge, shift_suc',
  shift_zero, lt-shift,
}
use native.Mathlib.Decide.{dec_le}
use native.Mathlib.Nat.{one-le-pow, pow-le-pow_right, pow-suc}
use fair_os_dfs.Lookup.{
  Epoch, shl64, worst_hint, base, highest_level, mix_bits, scan_mask, get_next_level,
}
use fair_os_dfs.Lookup.BaseTime.{IsEpoch, base-shift}

-- `l` is the highest bit of `mix`; a zero `mix` has `l` zero.
abbrev IsTopBit : ℕ → ℕ → Type 0
IsTopBit mix l = (mix / 2 ^ suc l ≡ 0) × ((l ≡ 0) ⊎ (mix / 2 ^ l ≢ 0))

bit_of_top : (i mix : ℕ) → mix / 2 ^ suc i ≡ 0 → mix / 2 ^ i % 2 ≡ mix / 2 ^ i
bit_of_top i mix h = omega (arith, shift_suc' mix i)

half_pow : (i : ℕ) → 2 ^ suc i / 2 ≡ 2 ^ i
half_pow i = omega (arith, pow-suc 2 i)

-- A clear bit under a zero top leaves a zero top one bit further down; a set one does not.
clear_bit : (i mix : ℕ) → mix / 2 ^ suc i ≡ 0 → (bit_and mix (2 ^ i) == 0) ≡ true → mix / 2 ^ i ≡ 0
clear_bit i mix top clear =
    grind (arith, bit_and_bit i mix, bit_of_top i mix top, one-le-pow i 2 (omega arith))

set_bit : (i mix : ℕ) → mix / 2 ^ suc i ≡ 0 → (bit_and mix (2 ^ i) == 0) ≡ false → mix / 2 ^ i ≢ 0
set_bit i mix top found none_left = grind (arith, bit_and_bit i mix, bit_of_top i mix top)

-- The loop finds the highest bit.
scan_mask_lem :
    (i mix : ℕ)
    → mix / 2 ^ suc i ≡ 0
    → (scan_mask i (2 ^ i) mix ≤ i) × IsTopBit mix (scan_mask i (2 ^ i) mix)
unfolding scan_mask
scan_mask_lem zero mix h = (omega arith, (h, inl refl))
scan_mask_lem (suc i) mix h = elim (Bool-cases (bit_and mix (2 ^ suc i) == 0)) [
  | inl clear ↦
      let rest = scan_mask_lem i mix (clear_bit (suc i) mix h clear) in
      rw (clear, half_pow i) (omega (arith, rest.0), rest.1)
  | inr found ↦ rw found (omega arith, (h, inr (set_bit (suc i) mix h found)))
]

two_pow_le : (i j : ℕ) → i ≤ j → 2 ^ i ≤ 2 ^ j
two_pow_le i j h = pow-le-pow_right {n = 2} (omega arith) h

-- The bit below the last level; none at level 0, where `last.Level - 1` wraps to 255.
floor_bit : Epoch → ℕ
floor_bit last = shl64 1 ((last.level + 255) % 256)

floor_bit_lem :
    (last : Epoch) → 1 ≤ last.level → last.level ≤ 64 → floor_bit last ≡ 2 ^ (last.level - 1)
unfolding floor_bit
floor_bit_lem last lo hi =
    let e : (last.level + 255) % 256 ≡ last.level - 1 = omega arith in
    let fits : 2 ^ (last.level - 1) ≤ 2 ^ 63 = two_pow_le (last.level - 1) 63 (omega arith) in
    rw e (omega arith)

floor_bit_zero : (last : Epoch) → last.level ≡ 0 → floor_bit last ≡ 0
unfolding floor_bit
floor_bit_zero last e = rw e

-- The floor bit lies below any level from the last one up.
floor_bit-lt : (last : Epoch) (k : ℕ) → last.level ≤ k → last.level ≤ 64 → floor_bit last < 2 ^ k
floor_bit-lt last k h fits = elim (dec_le 1 last.level) [
  | yes some_level ↦ omega (
    arith,
    floor_bit_lem last some_level fits,
    pow-suc 2 (last.level - 1),
    two_pow_le (suc (last.level - 1)) k (omega arith),
    one-le-pow (last.level - 1) 2 (omega arith),
  )
  | no zero_level ↦ omega (arith, floor_bit_zero last (omega arith), one-le-pow k 2 (omega arith))
]

mix-shift :
    (k : ℕ) (last : Epoch) (now : ℕ)
    → mix_bits last now / 2 ^ k
      ≡ bit_or (bit_xor (base last / 2 ^ k) (now / 2 ^ k)) (floor_bit last / 2 ^ k)
unfolding mix_bits floor_bit
mix-shift k last now =
    bit_or-shift k (bit_xor (base last) now) (shl64 1 ((last.level + 255) % 256))
    ∙ ap (λ (x : ℕ). bit_or x (shl64 1 ((last.level + 255) % 256) / 2 ^ k))
        (bit_xor-shift k (base last) now)

-- No bit of the mix from `k` on: the two times agree from there.
mix_agree :
    (k : ℕ) (last : Epoch) (now : ℕ)
    → mix_bits last now / 2 ^ k ≡ 0
    → base last / 2 ^ k ≡ now / 2 ^ k
mix_agree k last now h = bit_xor-eq-zero (base last / 2 ^ k) (now / 2 ^ k) (
    omega (
      arith,
      mix-shift k last now,
      bit_or_ge (bit_xor (base last / 2 ^ k) (now / 2 ^ k)) (floor_bit last / 2 ^ k),
    ))

mix_vanish :
    (k : ℕ) (last : Epoch) (now : ℕ)
    → base last / 2 ^ k ≡ now / 2 ^ k
    → floor_bit last < 2 ^ k
    → mix_bits last now / 2 ^ k ≡ 0
mix_vanish k last now h low =
    mix-shift k last now ∙ rw (h, bit_xor_self (now / 2 ^ k), lt-shift (floor_bit last) k low)

floor-le-mix : (last : Epoch) (now : ℕ) → floor_bit last ≤ mix_bits last now
unfolding mix_bits floor_bit
floor-le-mix last now = (bit_or_ge (bit_xor (base last) now) (shl64 1 ((last.level + 255) % 256))).1

-- Either the mix passes 32 bits and the level is the highest, or the level is the mix's top bit.
next_level_cases :
    (last : Epoch) (now : ℕ)
    → ((2 ^ 32 ≤ mix_bits last now) × (get_next_level last now ≡ highest_level))
      ⊎ ((mix_bits last now < 2 ^ 32)
          × (get_next_level last now ≤ highest_level)
          × IsTopBit (mix_bits last now) (get_next_level last now))
unfolding get_next_level
next_level_cases last now = elim (Bool-cases (ltb 4294967295 (mix_bits last now))) [
  | inl big ↦ inl (ground arith, rw big)
  | inr small ↦
      let found = scan_mask_lem 31 (mix_bits last now) (ground arith) in
      rw small (inr (ground arith, found.0, found.1))
]

top_ge_floor : (mix l k : ℕ) → IsTopBit mix l → 2 ^ k ≤ mix → k ≤ l
top_ge_floor mix l k top h = elim (dec_le k l) [
  | yes fine ↦ fine
  | no less ↦
      absurd (omega (arith, two_pow_le (suc l) k (omega arith), shift_zero mix (suc l) top.0))
]

pub get_next_level-le : (last : Epoch) (now : ℕ) → get_next_level last now ≤ highest_level
get_next_level-le last now = omega (arith, next_level_cases last now)

-- The next level is at most 31, and at most one below a last level of at most 32.
pub get_next_level_bounds :
    (last : Epoch) (now : ℕ)
    → last.level ≤ 32
    → (get_next_level last now ≤ highest_level) × (last.level ≤ get_next_level last now + 1)
get_next_level_bounds last now h = elim (next_level_cases last now) [
  | inl (big, e) ↦ omega arith
  | inr (small, le, top) ↦ elim (dec_le 1 last.level) [
    | yes some_level ↦ omega (
      arith,
      top_ge_floor (mix_bits last now) (get_next_level last now) (last.level - 1) top
          (omega (arith, floor-le-mix last now, floor_bit_lem last some_level (omega arith))),
    )
    | no zero_level ↦ omega arith
  ]
]

-- Within the period of the last epoch the next level is exactly one below the last, and 0 below
-- level 0, for a last level of at most 31.
pub get_next_level_same_period :
    (last : Epoch) (now : ℕ)
    → IsEpoch last
    → last.level ≤ 31
    → now / 2 ^ last.level ≡ last.time / 2 ^ last.level
    → get_next_level last now ≡ last.level - 1
get_next_level_same_period last now fits hi same = elim (next_level_cases last now) [
  | inl (big, e) ↦ absurd (omega (arith, two_pow_le last.level 31 hi, below))
  | inr (small, le, top) ↦ elim (dec_le last.level (get_next_level last now)) [
    | yes high ↦ elim top.1 [
      | inl z ↦ omega arith
      | inr n ↦ absurd (
          n (
            lt-shift (mix_bits last now) (get_next_level last now)
              (omega (arith, below, two_pow_le last.level (get_next_level last now) high))))
    ]
    | no low ↦ omega (arith, get_next_level_bounds last now (omega arith))
  ]
]
  where
    below : mix_bits last now < 2 ^ last.level
    below = shift_zero (mix_bits last now) last.level (
        mix_vanish last.level last now (base-shift last fits ∙ sym same)
          (floor_bit-lt last last.level (omega arith) (omega arith)))

-- For a last level of at most 31, below the highest level the parent period of the next epoch
-- holds the last update too, and where the next level is positive and not below the last, the
-- period of the next epoch itself does not.
pub get_next_level_nearest :
    (last : Epoch) (now : ℕ)
    → last.level ≤ 31
    → let next = get_next_level last now in
      (next < highest_level → now / 2 ^ suc next ≡ base last / 2 ^ suc next)
      × (last.level ≤ next → 0 < next → now / 2 ^ next ≢ base last / 2 ^ next)
get_next_level_nearest last now h = elim (next_level_cases last now) [
  | inl (big, e) ↦ (
    λ lt. absurd (omega arith),
    λ high pos same. absurd (
        omega (
          arith,
          two_pow_le (get_next_level last now) 32 (omega arith),
          shift_zero (mix_bits last now) (get_next_level last now) (
              mix_vanish (get_next_level last now) last now (sym same)
                (floor_bit-lt last (get_next_level last now) high (omega arith))),
        )),
  )
  | inr (small, le, top) ↦ (
    λ lt. sym (mix_agree (suc (get_next_level last now)) last now top.0),
    λ high pos same. elim top.1 [
      | inl z ↦ omega arith
      | inr n ↦ n (
          mix_vanish (get_next_level last now) last now (sym same)
            (floor_bit-lt last (get_next_level last now) high (omega arith)))
    ],
  )
]

-- From the worst hint the search begins at the highest level.
pub get_next_level_worst : (now : ℕ) → get_next_level worst_hint now ≡ highest_level
get_next_level_worst now = elim (next_level_cases worst_hint now) [
  | inl (big, e) ↦ e
  | inr (small, le, top) ↦ absurd (
      omega
        (arith, floor-le-mix worst_hint now, floor_bit_lem worst_hint (omega arith) (omega arith)))
]
