-- ===== src/Lookup/Period.antt =====
-- Arithmetic of the periods of 2 ^ m seconds that the levels stand for.
use fair_os_dfs.Prelude.{ℕ, suc, ◌+◌, ◌*◌, ◌/◌, ◌^◌, ◌≤◌, ◌<◌, ◌≡◌, arith}
use fair_os_dfs.Prelude.Bits.{shift_suc'}
use native.Mathlib.Decide.{dec_lt}
use native.Mathlib.Nat.{
  one-le-pow, mul-div_cancel, div-mul-le_self, suc-mul, pow-suc, lt-div-mul-add, mul-le-mul,
  le_refl,
}

pub period_le : (m x w : ℕ) → x ≤ w → x / 2 ^ m ≤ w / 2 ^ m
period_le m x w h = grind (arith, one-le-pow m 2)

-- An earlier period ends before a later one begins.
pub period_lt : (m x w : ℕ) → x / 2 ^ m < w / 2 ^ m → x < w
period_lt m x w h = elim (dec_lt x w) [
  | yes p ↦ p
  | no p ↦ absurd (omega (arith, period_le m w x (omega arith)))
]

pub period_ge : (m q x : ℕ) → q * 2 ^ m ≤ x → q ≤ x / 2 ^ m
period_ge m q x h =
    let e : q * 2 ^ m / 2 ^ m ≡ q = mul-div_cancel q (one-le-pow m 2 (omega arith)) in
    rw e at (period_le m (q * 2 ^ m) x h)

pub period_start : (m x : ℕ) → x / 2 ^ m * 2 ^ m ≤ x
period_start m x = div-mul-le_self x (2 ^ m)

pub period_eq : (m q x : ℕ) → q * 2 ^ m ≤ x → x < q * 2 ^ m + 2 ^ m → x / 2 ^ m ≡ q
period_eq m q x lo hi = omega (arith, period_ge m q x lo, upper)
  where
    upper : x / 2 ^ m < suc q
    upper = grind (arith, period_start m x, suc-mul q (2 ^ m))

double_le : (a p : ℕ) → a / 2 * (p * 2) ≤ a * p
double_le a p =
    let regroup : a / 2 * (p * 2) ≡ a / 2 * 2 * p = grind arith in
    let halves : a / 2 * 2 ≤ a = omega arith in rw regroup (mul-le-mul halves (le_refl p))

-- A half period begins no earlier than its period.
pub nested : (m t : ℕ) → t / 2 ^ suc m * 2 ^ suc m ≤ t / 2 ^ m * 2 ^ m
nested m t = rw (shift_suc' t m, pow-suc 2 m) (double_le (t / 2 ^ m) (2 ^ m))

pub period_end : (m t : ℕ) → t < t / 2 ^ m * 2 ^ m + 2 ^ m
period_end m t = lt-div-mul-add {a = t} (one-le-pow m 2 (omega arith))
