-- ===== src/Prelude/Text.antt =====
-- Go strings as lists of bytes: equality, `strings.HasPrefix`, `strings.TrimPrefix`, order.
pub mod Utf8
use Prim.Native.Char.{code}
use Prim.Native.String.{String}
use Prim.Native.Nat.{ℕ, ◌<◌}
use mathlib.Core.Path.{◌≡◌, refl, sym, ap}
use mathlib.Core.Logic.{◌↔◌, inl, inr}
use mathlib.Core.Bool.{Bool, true, false, ◌&&◌}
use mathlib.Core.List.{List, [], ◌∷◌, ◌++◌}
use native.Mathlib.Omega.{arith}
use fair_os_dfs.Prelude.Lists.{length}
use fair_os_dfs.Prelude.Tests.{Bool-cases, ◌==◌, ltb, if◌then◌else◌}

abbrev pub Text : Type 0
Text = List ℕ

-- The bytes of an ASCII literal.
abbrev pub codes : String → List ℕ
codes String.[] = []
codes (String.◌∷◌ c s) = code c ∷ codes s

-- s == t
unfoldable pub text_eq : List ℕ → List ℕ → Bool
text_eq [] [] = true
text_eq [] (y ∷ ys) = false
text_eq (x ∷ xs) [] = false
text_eq (x ∷ xs) (y ∷ ys) = x == y && text_eq xs ys

pub text_eq_iff : (s t : List ℕ) → (text_eq s t ≡ true) ↔ (s ≡ t)
unfolding text_eq
text_eq_iff [] [] = ground arith
text_eq_iff [] (y ∷ ys) = ground arith
text_eq_iff (x ∷ xs) [] = ground arith
text_eq_iff (x ∷ xs) (y ∷ ys) = ground (arith, text_eq_iff xs ys)

pub text_eq_refl : (s : List ℕ) → text_eq s s ≡ true
text_eq_refl s = (text_eq_iff s s).1 refl

-- strings.HasPrefix(s, prefix)
unfoldable pub has_prefix : List ℕ → List ℕ → Bool
has_prefix s [] = true
has_prefix [] (p ∷ ps) = false
has_prefix (x ∷ xs) (p ∷ ps) = x == p && has_prefix xs ps

-- What is left of `s` behind a prefix of that many bytes.
unfoldable pub strip : List ℕ → List ℕ → List ℕ
strip s [] = s
strip [] (p ∷ ps) = []
strip (x ∷ xs) (p ∷ ps) = strip xs ps

-- strings.TrimPrefix(s, prefix)
unfoldable pub trim_prefix : List ℕ → List ℕ → List ℕ
unfolding has_prefix strip
trim_prefix s p = if has_prefix s p then strip s p else s

pub has_prefix-append : (p s : List ℕ) → has_prefix (p ++ s) p ≡ true
unfolding has_prefix
has_prefix-append [] s = refl
has_prefix-append (x ∷ p) s = ground (arith, has_prefix-append p s)

pub strip-append : (p s : List ℕ) → strip (p ++ s) p ≡ s
unfolding strip
strip-append [] s = refl
strip-append (x ∷ p) s = strip-append p s

pub trim_prefix-append : (p s : List ℕ) → trim_prefix (p ++ s) p ≡ s
unfolding trim_prefix
trim_prefix-append p s = ground (arith, has_prefix-append p s, strip-append p s)

pub append-trim_prefix : (s p : List ℕ) → has_prefix s p ≡ true → p ++ trim_prefix s p ≡ s
unfolding trim_prefix
append-trim_prefix s p h = ground (arith, glue s p)
  where
    glue : (s p : List ℕ) → has_prefix s p ≡ true → p ++ strip s p ≡ s
    glue s [] h = refl
    glue [] (x ∷ p) h = ground arith
    glue (y ∷ s) (x ∷ p) h = ground (arith, glue s p)

-- s < t, by bytes
unfoldable pub text_lt : List ℕ → List ℕ → Bool
text_lt s [] = false
text_lt [] (y ∷ ys) = true
text_lt (x ∷ xs) (y ∷ ys) = if x == y then text_lt xs ys else ltb x y

pub longer_differs : (p q : Text) → length p < length q → text_eq p q ≡ false
longer_differs p q h = elim (Bool-cases (text_eq p q)) [
  | inr e ↦ e
  | inl e ↦
      let same : length p ≡ length q = ap length ((text_eq_iff p q).0 e) in
      absurd (omega (arith, h, same))
]

pub text_eq_swap : (p q : Text) → text_eq p q ≡ false → text_eq q p ≡ false
text_eq_swap p q h = elim (Bool-cases (text_eq q p)) [
  | inr e ↦ e
  | inl e ↦
      let same : text_eq p q ≡ true = (text_eq_iff p q).1 (sym ((text_eq_iff q p).0 e)) in
      ground (arith, h, same)
]
