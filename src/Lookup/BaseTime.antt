-- ===== src/Lookup/BaseTime.antt =====
-- The base time of an epoch: its time with the bits below its level cleared.
use fair_os_dfs.Prelude.{
  ℕ, zero, suc, ◌+◌, ◌-◌, ◌*◌, ◌/◌, ◌%◌, ◌^◌, ◌≤◌, ◌<◌, ◌≡◌, ap, ◌∙◌, sym, arith,
}
use fair_os_dfs.Prelude.Bits.{bit_and_high, pow-add}
use native.Mathlib.Nat.{
  one-le-pow, pow-le-pow_right, div-mul-le_self, lt-div-mul-add, mul-div_cancel, suc-mul,
  mul-mod_left,
}
use fair_os_dfs.Lookup.{Epoch, shl64, maxuint64, get_base_time, base}

abbrev shl64_ones : ℕ → ℕ
shl64_ones p = 18446744073709551615 * p % 2 ^ 64

quotient_lt : (t p q : ℕ) → t < q * p → t / p < q
quotient_lt t p q h = grind (arith, div-mul-le_self t p)

take_one : (p q : ℕ) → 1 ≤ q → (q - 1) * p ≡ q * p - p
take_one p zero h = absurd (omega arith)
take_one p (suc q) h = let e : suc q - 1 ≡ q = omega arith in rw (e, suc-mul q p) (omega arith)

negate : (p : ℕ) → 1 ≤ p → p ≤ 2 ^ 64 → shl64_ones p ≡ 2 ^ 64 - p
negate p lo hi = omega arith

split_pow : (level : ℕ) → level ≤ 64 → 2 ^ (64 - level) * 2 ^ level ≡ 2 ^ 64
split_pow level h =
    let e : 64 - level + level ≡ 64 = omega arith in
    sym (pow-add 2 (64 - level) level) ∙ ap (λ (k : ℕ). 2 ^ k) e

-- The mask `maxuint64 << level` is 64 - level ones above zeros.
high_mask : (level : ℕ) → level ≤ 64 → shl64 maxuint64 level ≡ (2 ^ (64 - level) - 1) * 2 ^ level
high_mask level h =
    negate (2 ^ level) (one-le-pow level 2 (omega arith)) (pow-le-pow_right (omega arith) h)
    ∙ omega (
      arith,
      take_one (2 ^ level) (2 ^ (64 - level)) (one-le-pow (64 - level) 2 (omega arith)),
      split_pow level h,
    )

below_mask : (t level : ℕ) → t < 2 ^ 64 → level ≤ 64 → t / 2 ^ level < 2 ^ (64 - level)
below_mask t level ht h =
    quotient_lt t (2 ^ level) (2 ^ (64 - level)) (omega (arith, split_pow level h))

-- The base time is the start of the period of 2 ^ level seconds that holds the time.
pub get_base_time_lem :
    (t level : ℕ) → t < 2 ^ 64 → level ≤ 64 → get_base_time t level ≡ t / 2 ^ level * 2 ^ level
unfolding get_base_time
get_base_time_lem t level ht h =
    rw (high_mask level h) (bit_and_high level (64 - level) t (below_mask t level ht h))

-- What the program keeps of an epoch: a 64-bit time, and a level at most 64.
pub record IsEpoch (e : Epoch) : Type 0 where
  pub time_fits : e.time < 2 ^ 64
  pub level_fits : e.level ≤ 64

module _ (e : Epoch) (h : IsEpoch e) where
  pub base_lem : base e ≡ e.time / 2 ^ e.level * 2 ^ e.level
  unfolding base
  base_lem = get_base_time_lem e.time e.level h.time_fits h.level_fits

  -- The base time of a 64-bit epoch of level at most 64 is a multiple of 2 ^ level, and the time
  -- of the epoch lies in the period of 2 ^ level seconds that begins there.
  pub base_bounds : (base e % 2 ^ e.level ≡ 0) × (base e ≤ e.time) × (e.time < base e + 2 ^ e.level)
  base_bounds = rw base_lem (
    mul-mod_left (e.time / 2 ^ e.level) (2 ^ e.level),
    div-mul-le_self e.time (2 ^ e.level),
    lt-div-mul-add (one-le-pow e.level 2 (omega arith)),
  )

  -- The base time is a multiple of the period, and has the time's number of periods.
  pub base-shift : base e / 2 ^ e.level ≡ e.time / 2 ^ e.level
  base-shift =
      rw base_lem (mul-div_cancel (e.time / 2 ^ e.level) (one-le-pow e.level 2 (omega arith)))
