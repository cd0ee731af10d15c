-- ===== src/Prelude/Result.antt =====
-- Go's `(value, error)` returns: a value, or an error of the package's own error type.
use mathlib.Core.Bool.{Bool, true, false}
use mathlib.Core.Path.{◌≡◌, refl, subst, ap}
use mathlib.Core.Logic.{◌⊎◌, inl, inr}

pub data Result {ℓ κ} (E : Type ℓ) (A : Type κ) : Type (ℓ ⊔ κ) where
  ok : A → Result E A
  err : E → Result E A

infixl 5 ◌>>=◌ ◌>>◌
abbrev pub ◌>>=◌ {ℓ κ μ} :
    {E : Type ℓ} {A : Type κ} {B : Type μ} → Result E A → (A → Result E B) → Result E B
ok a >>= f = f a
err e >>= f = err e

abbrev pub ◌>>◌ {ℓ κ} : {E : Type ℓ} {B : Type κ} → Result E (Unit {0}) → Result E B → Result E B
m >> k = m >>= λ _. k

-- `if !cond { return err }`
abbrev pub guard {ℓ} : {E : Type ℓ} → Bool → E → Result E (Unit {0})
guard true e = ok tt
guard false e = err e

pub Result-cases {ℓ κ} :
    {E : Type ℓ} {A : Type κ} (r : Result E A) → ((a : A) × (r ≡ ok a)) ⊎ ((e : E) × (r ≡ err e))
Result-cases (ok a) = inl (a, refl)
Result-cases (err e) = inr (e, refl)

-- An error is no value.
pub err_not_ok {ℓ κ} :
    {E : Type ℓ} {A : Type κ} (e : E) (a : A) → ◌≡◌ {A = Result E A} (err e) (ok a) → ⊥
err_not_ok {E = E} {A = A} e a h = subst Told h tt
  where
    Told : Result E A → Type 0
    Told (err e) = Unit
    Told (ok a) = ⊥

pub ok_injective {ℓ κ} :
    {E : Type ℓ} {A : Type κ} (a a' : A) → ◌≡◌ {A = Result E A} (ok a) (ok a') → a ≡ a'
ok_injective {E = E} {A = A} a a' h = ap value_of h
  where
    value_of : Result E A → A
    value_of (err e) = a
    value_of (ok x) = x
