-- ===== src/Prelude/Bits.antt =====
-- The native bit operations at variables: one equation for the lowest digit, and what it gives for
-- masks and for numbers that agree above a bit.
use Prim.Native.Nat.{
  ℕ, zero, suc, ◌+◌, ◌-◌, ◌*◌, ◌/◌, ◌%◌, ◌^◌, ◌≤◌, ◌<◌, min, max, differ, digits, bit_and, bit_or,
  bit_xor, bit_and-bitwise, bit_or-bitwise, bit_xor-bitwise,
}
use mathlib.Core.Path.{◌≡◌, refl, sym, ap, ◌∙◌}
use native.Mathlib.Omega.{arith}
use native.Mathlib.Nat.{pow-zero, pow-suc, pow-succ', one-le-pow, div-div-eq-div-mul}

module _ (z : ℕ → ℕ) (f : ℕ → ℕ → ℕ) where
  no_digits : (fuel b : ℕ) → digits z f fuel 0 b ≡ z b
  no_digits zero b = refl
  no_digits (suc fuel) b = refl

  -- Any two amounts of fuel that cover the first number give the same digits.
  same_digits :
      (x b fuel fuel' : ℕ) → x ≤ fuel → x ≤ fuel' → digits z f fuel x b ≡ digits z f fuel' x b
  same_digits zero b fuel fuel' h h' = no_digits fuel b ∙ sym (no_digits fuel' b)
  same_digits (suc x) b zero fuel' h h' = absurd (omega arith)
  same_digits (suc x) b (suc fuel) zero h h' = absurd (omega arith)
  same_digits (suc x) b (suc fuel) (suc fuel') h h' =
      let rest = same_digits (suc x / 2) (b / 2) fuel fuel' (omega arith) (omega arith) in rw rest

  lowest_digit :
      (x b : ℕ)
      → f (suc x % 2) (b % 2) + digits z f (suc x / 2) (suc x / 2) (b / 2) * 2
        ≡ digits z f (suc x) (suc x) b
  lowest_digit x b =
      let rest = same_digits (suc x / 2) (b / 2) (suc x / 2) x (omega arith) (omega arith) in
      omega (arith, rest)

differ_of_bits : (x y : ℕ) → x < 2 → y < 2 → differ x y ≡ (x + y) % 2
differ_of_bits zero y p q = omega arith
differ_of_bits (suc zero) zero p q = refl
differ_of_bits (suc zero) (suc zero) p q = refl
differ_of_bits (suc zero) (suc (suc y)) p q = absurd (omega arith)
differ_of_bits (suc (suc x)) y p q = absurd (omega arith)

pub bit_or_step : (x y : ℕ) → bit_or x y ≡ bit_or (x / 2) (y / 2) * 2 + max (x % 2) (y % 2)
bit_or_step zero y = simp bit_or-bitwise (omega arith)
bit_or_step (suc x) y =
    let low = lowest_digit (λ rest. rest) max x y in simp bit_or-bitwise (omega (arith, low))

pub bit_and_step : (x y : ℕ) → bit_and x y ≡ bit_and (x / 2) (y / 2) * 2 + min (x % 2) (y % 2)
bit_and_step zero y = simp bit_and-bitwise (omega arith)
bit_and_step (suc x) y =
    let low = lowest_digit (λ zeros. 0) min x y in simp bit_and-bitwise (omega (arith, low))

pub bit_xor_step : (a b : ℕ) → bit_xor a b ≡ bit_xor (a / 2) (b / 2) * 2 + (a + b) % 2
bit_xor_step zero b = simp bit_xor-bitwise (omega arith)
bit_xor_step (suc a) b = simp bit_xor-bitwise (
    omega (
      arith,
      lowest_digit (λ y. y) differ a b,
      differ_of_bits (suc a % 2) (b % 2) (omega arith) (omega arith),
    ))

pub half-bit_xor : (a b : ℕ) → bit_xor a b / 2 ≡ bit_xor (a / 2) (b / 2)
half-bit_xor a b = omega (arith, bit_xor_step a b)

pub half-bit_or : (a b : ℕ) → bit_or a b / 2 ≡ bit_or (a / 2) (b / 2)
half-bit_or a b = omega (arith, bit_or_step a b)

-- Shifting right by one more bit.
pub shift_suc : (x k : ℕ) → x / 2 ^ suc k ≡ x / 2 / 2 ^ k
shift_suc x k = rw (pow-succ' 2 k) (sym (div-div-eq-div-mul x 2 (2 ^ k)))

pub shift_suc' : (x k : ℕ) → x / 2 ^ suc k ≡ x / 2 ^ k / 2
shift_suc' x k = rw (pow-suc 2 k) (sym (div-div-eq-div-mul x (2 ^ k) 2))

pub bit_xor-shift : (k a b : ℕ) → bit_xor a b / 2 ^ k ≡ bit_xor (a / 2 ^ k) (b / 2 ^ k)
bit_xor-shift zero a b = rw (one a, one b, one (bit_xor a b))
  where
    one : (x : ℕ) → x / 2 ^ 0 ≡ x
    one x = omega arith
bit_xor-shift (suc k) a b =
    rw (shift_suc (bit_xor a b) k, shift_suc a k, shift_suc b k, half-bit_xor a b)
      (bit_xor-shift k (a / 2) (b / 2))

pub bit_or-shift : (k a b : ℕ) → bit_or a b / 2 ^ k ≡ bit_or (a / 2 ^ k) (b / 2 ^ k)
bit_or-shift zero a b = rw (one a, one b, one (bit_or a b))
  where
    one : (x : ℕ) → x / 2 ^ 0 ≡ x
    one x = omega arith
bit_or-shift (suc k) a b =
    rw (shift_suc (bit_or a b) k, shift_suc a k, shift_suc b k, half-bit_or a b)
      (bit_or-shift k (a / 2) (b / 2))

-- Two numbers differ in no bit exactly when they are equal.
bit_xor-eq-zero_fuel : (n a b : ℕ) → a + b ≤ n → bit_xor a b ≡ 0 → a ≡ b
bit_xor-eq-zero_fuel zero a b h e = omega arith
bit_xor-eq-zero_fuel (suc n) zero zero h e = refl
bit_xor-eq-zero_fuel (suc n) a b h e = omega (
  arith,
  bit_xor_step a b,
  bit_xor-eq-zero_fuel n (a / 2) (b / 2) (omega arith) (omega (arith, bit_xor_step a b)),
)

pub bit_xor-eq-zero : (a b : ℕ) → bit_xor a b ≡ 0 → a ≡ b
bit_xor-eq-zero a b = bit_xor-eq-zero_fuel (a + b) a b (omega arith)

bit_xor_self_fuel : (n a : ℕ) → a ≤ n → bit_xor a a ≡ 0
bit_xor_self_fuel n zero h = refl
bit_xor_self_fuel zero (suc a) h = absurd (omega arith)
bit_xor_self_fuel (suc n) (suc a) h =
    omega (arith, bit_xor_step (suc a) (suc a), bit_xor_self_fuel n (suc a / 2) (omega arith))

pub bit_xor_self : (a : ℕ) → bit_xor a a ≡ 0
bit_xor_self a = bit_xor_self_fuel a a (omega arith)

bit_or_ge_fuel : (n a b : ℕ) → a + b ≤ n → (a ≤ bit_or a b) × (b ≤ bit_or a b)
bit_or_ge_fuel zero a b h = (omega arith, omega arith)
bit_or_ge_fuel (suc n) zero zero h = (omega arith, omega arith)
bit_or_ge_fuel (suc n) a b h =
    omega (arith, bit_or_step a b, bit_or_ge_fuel n (a / 2) (b / 2) (omega arith))

pub bit_or_ge : (a b : ℕ) → (a ≤ bit_or a b) × (b ≤ bit_or a b)
bit_or_ge a b = bit_or_ge_fuel (a + b) a b (omega arith)

-- Below 2^k exactly when nothing is left above bit k.
pub shift_zero : (x k : ℕ) → x / 2 ^ k ≡ 0 → x < 2 ^ k
shift_zero x k h = grind (arith, one-le-pow k 2)

pub lt-shift : (x k : ℕ) → x < 2 ^ k → x / 2 ^ k ≡ 0
lt-shift x k h = grind (arith, one-le-pow k 2)

cleared : (x k : ℕ) → x ≤ k → bit_and x 0 ≡ 0
cleared zero k h = bit_and_step 0 0 ∙ omega (arith, bit_and-bitwise 0 0)
cleared (suc x) zero h = absurd (omega arith)
cleared (suc x) (suc k) h =
    let rest = cleared (suc x / 2) k (omega arith) in omega (arith, rest, bit_and_step (suc x) 0)

pub bit_and-zero : (a : ℕ) → bit_and a 0 ≡ 0
bit_and-zero a = cleared a a (omega arith)

-- A mask of m ones keeps a number of m bits.
pub bit_and_ones : (m t : ℕ) → t < 2 ^ m → bit_and t (2 ^ m - 1) ≡ t
bit_and_ones zero t h = let e : t ≡ 0 = omega arith in rw e
bit_and_ones (suc m) t h = omega (
  arith,
  bit_and_step t (2 ^ suc m - 1),
  pow-suc 2 m,
  one-le-pow m 2 (omega arith),
  ap (bit_and (t / 2)) halved,
  bit_and_ones m (t / 2) (omega (arith, pow-suc 2 m)),
)
  where
    halved : (2 ^ suc m - 1) / 2 ≡ 2 ^ m - 1
    halved = omega (arith, pow-suc 2 m, one-le-pow m 2 (omega arith))

-- A mask of m ones above l zeros clears the l low bits.
pub bit_and_high :
    (l m t : ℕ) → t / 2 ^ l < 2 ^ m → bit_and t ((2 ^ m - 1) * 2 ^ l) ≡ t / 2 ^ l * 2 ^ l
bit_and_high zero m t h =
    let one : t / 2 ^ 0 ≡ t = omega arith in
    let same : (2 ^ m - 1) * 2 ^ 0 ≡ 2 ^ m - 1 = omega arith in
    rw (same, one) (bit_and_ones m t (rw one at h) ∙ omega arith)
bit_and_high (suc l) m t h = omega (
  arith,
  bit_and_step t ((2 ^ m - 1) * 2 ^ suc l),
  doubled,
  ap (bit_and (t / 2)) halved,
  bit_and_high l m (t / 2) (rw (shift_suc t l) at h),
  ap (λ (x : ℕ). x * 2 ^ suc l) (shift_suc t l),
  ap (λ (x : ℕ). t / 2 / 2 ^ l * x) (pow-suc 2 l),
)
  where
    doubled : (2 ^ m - 1) * 2 ^ suc l ≡ (2 ^ m - 1) * 2 ^ l * 2
    doubled = rw (pow-suc 2 l) (grind arith)

    halved : (2 ^ m - 1) * 2 ^ suc l / 2 ≡ (2 ^ m - 1) * 2 ^ l
    halved = omega (arith, doubled)

-- One bit of a number.
pub bit_and_bit : (i x : ℕ) → bit_and x (2 ^ i) ≡ x / 2 ^ i % 2 * 2 ^ i
bit_and_bit zero x = omega (arith, bit_and_step x 1, bit_and-zero (x / 2))
bit_and_bit (suc i) x = omega (
  arith,
  bit_and_step x (2 ^ suc i),
  pow-suc 2 i,
  ap (bit_and (x / 2)) halved,
  bit_and_bit i (x / 2),
  ap (λ (y : ℕ). y % 2 * 2 ^ suc i) (shift_suc x i),
  ap (λ (y : ℕ). x / 2 / 2 ^ i % 2 * y) (pow-suc 2 i),
)
  where
    halved : 2 ^ suc i / 2 ≡ 2 ^ i
    halved = omega (arith, pow-suc 2 i)

pub pow-add : (b m n : ℕ) → b ^ (m + n) ≡ b ^ m * b ^ n
pow-add b zero n = let e : 0 + n ≡ n = omega arith in rw (e, pow-zero b) (omega arith)
pow-add b (suc m) n =
    let e : suc m + n ≡ suc (m + n) = omega arith in
    rw (e, pow-suc b (m + n), pow-suc b m, pow-add b m n) (grind arith)
