-- ===== src/Prelude/Map.antt =====
-- Go's `map[string]V` as an association list. The program never depends on its order.
use mathlib.Core.Path.{◌≡◌, refl}
use mathlib.Core.List.{List, [], ◌∷◌}
use mathlib.Core.Option.{Option, none, some}
use native.Mathlib.Omega.{arith}
use Prim.Native.Nat.{ℕ}
use fair_os_dfs.Prelude.Tests.{if◌then◌else◌}
use fair_os_dfs.Prelude.Text.{text_eq, text_eq_iff}

abbrev pub GoMap {ℓ} : Type ℓ → Type ℓ
GoMap V = List (List ℕ × V)

module _ {ℓ} {V : Type ℓ} where
  -- v, ok := m[key]
  unfoldable pub find : List ℕ → GoMap V → Option V
  find key [] = none
  find key ((k, v) ∷ m) = if text_eq k key then some v else find key m

  -- delete(m, key)
  unfoldable pub delete : List ℕ → GoMap V → GoMap V
  delete key [] = []
  delete key ((k, v) ∷ m) = let rest = delete key m in if text_eq k key then rest else (k, v) ∷ rest

  -- m[key] = v
  unfoldable pub assign : List ℕ → V → GoMap V → GoMap V
  assign key v [] = (key, v) ∷ []
  assign key v ((k, w) ∷ m) =
      let rest = assign key v m in if text_eq k key then (key, v) ∷ m else (k, w) ∷ rest

  pub find-assign :
      (key other : List ℕ) (v : V) (m : GoMap V)
      → find other (assign key v m) ≡ (if text_eq key other then some v else find other m)
  unfolding find assign
  find-assign key other v [] = refl
  find-assign key other v ((k, w) ∷ m) = ground (
    arith,
    text_eq_iff k key,
    text_eq_iff k other,
    text_eq_iff key other,
    find-assign key other v m,
  )

  pub find-delete :
      (key other : List ℕ) (m : GoMap V)
      → find other (delete key m) ≡ (if text_eq key other then none else find other m)
  unfolding find delete
  find-delete key other [] = ground arith
  find-delete key other ((k, w) ∷ m) = ground (
    arith,
    text_eq_iff k key,
    text_eq_iff k other,
    text_eq_iff key other,
    find-delete key other m,
  )
