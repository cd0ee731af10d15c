-- ===== src/Collection/Node/Prefix.antt =====
-- The longest common prefix of two texts, and texts behind one prefix.
use fair_os_dfs.Prelude.{
  ℕ, ◌≡◌, ◌≢◌, inl, inr, refl, ap, ◌∙◌, true, [], ◌∷◌, ◌++◌, arith, ◌==◌, Bool-cases, ==_iff,
  ==_refl,
}
use fair_os_dfs.Prelude.Text.{Text, text_eq, has_prefix, strip, trim_prefix}
use fair_os_dfs.Collection.Entries.{common_prefix}

-- Two suffixes that begin differently, or one of which is empty.
abbrev pub Diverge : Text → Text → Type 0
Diverge [] t = Unit
Diverge (x ∷ xs) [] = Unit
Diverge (x ∷ xs) (y ∷ ys) = x ≢ y

pub record IsCommon (n k : Text) (r : Text × Text × Text) : Type 0 where
  pub first : r.0 ++ r.1 ≡ n
  pub second : r.0 ++ r.2 ≡ k
  pub diverge : Diverge r.1 r.2

pub common_prefix-IsCommon : (n k : Text) → IsCommon n k (common_prefix n k)
unfolding common_prefix
common_prefix-IsCommon [] k = record { first = refl; second = refl; diverge = tt }
common_prefix-IsCommon (x ∷ xs) [] = record { first = refl; second = refl; diverge = tt }
common_prefix-IsCommon (x ∷ xs) (y ∷ ys) = elim (Bool-cases (x == y)) [
  | inl e ↦
      let ih = common_prefix-IsCommon xs ys in
      rw (common_prefix, e)
        (record {
          first = ap (◌∷◌ x) ih.first;
          second = ap (◌∷◌ x) ih.second ∙ ap (λ (c : ℕ). c ∷ ys) ((==_iff x y).0 e);
          diverge = ih.diverge;
        })
  | inr e ↦
      rw (common_prefix, e) (record { first = refl; second = refl; diverge = ground (arith, e) })
]

pub text_eq-append : (p s t : Text) → text_eq (p ++ s) (p ++ t) ≡ text_eq s t
unfolding text_eq
text_eq-append [] s t = refl
text_eq-append (x ∷ p) s t = rw (==_refl x) (text_eq-append p s t)

pub has_prefix-append_both : (p s t : Text) → has_prefix (p ++ s) (p ++ t) ≡ has_prefix s t
unfolding has_prefix
has_prefix-append_both [] s t = refl
has_prefix-append_both (x ∷ p) s t = rw (==_refl x) (has_prefix-append_both p s t)

strip-append_both : (p s t : Text) → strip (p ++ s) (p ++ t) ≡ strip s t
unfolding strip
strip-append_both [] s t = refl
strip-append_both (x ∷ p) s t = strip-append_both p s t

pub trim_prefix-append_both :
    (p s t : Text) → has_prefix s t ≡ true → trim_prefix (p ++ s) (p ++ t) ≡ trim_prefix s t
unfolding trim_prefix
trim_prefix-append_both p s t h = rw (has_prefix-append_both p s t, h) (strip-append_both p s t)

pub append_injective : (p s t : Text) → p ++ s ≡ p ++ t → s ≡ t
append_injective [] s t e = e
append_injective (x ∷ p) s t e = append_injective p s t (ground (arith, e))

-- A text has a prefix exactly when it is that prefix and what TrimPrefix leaves.
pub has_prefix_longer : (k p s : Text) → has_prefix k (p ++ s) ≡ true → has_prefix k p ≡ true
unfolding has_prefix
has_prefix_longer k [] s h = refl
has_prefix_longer [] (x ∷ p) s h = ground (arith, h)
has_prefix_longer (y ∷ k) (x ∷ p) s h = ground (arith, h, has_prefix_longer k p s)
