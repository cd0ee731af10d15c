-- ===== src/File/Reader/Pieces.antt =====
-- Pieces of a list: what the reader copies out of a block, and how pieces join.
use fair_os_dfs.Prelude.{
  ℕ, zero, suc, ◌+◌, ◌≤◌, ◌≡◌, refl, ap, sym, List, [], ◌∷◌, ◌++◌, arith, length, take, drop,
  take-append-drop, drop-drop,
}

module _ {A : Type 0} where
  pub take-take_lem : (m b : ℕ) (xs : List A) → m ≤ b → take m (take b xs) ≡ take m xs
  take-take_lem zero b xs h = refl
  take-take_lem (suc m) zero xs h = absurd (omega arith)
  take-take_lem (suc m) (suc b) [] h = refl
  take-take_lem (suc m) (suc b) (x ∷ xs) h = ap (◌∷◌ x) (take-take_lem m b xs (omega arith))

  pub inner_piece :
      (m a b : ℕ) (xs : List A) → a + m ≤ b → take m (drop a (take b xs)) ≡ take m (drop a xs)
  inner_piece m zero b xs h = take-take_lem m b xs (omega arith)
  inner_piece m (suc a) zero xs h = absurd (omega arith)
  inner_piece m (suc a) (suc b) [] h = refl
  inner_piece m (suc a) (suc b) (x ∷ xs) h = inner_piece m a b xs (omega arith)

  pub joined : (a b : ℕ) (xs : List A) → take a xs ++ take b (drop a xs) ≡ take (a + b) xs
  joined zero b xs = let e : 0 + b ≡ b = omega arith in rw e
  joined (suc a) zero [] = let e : suc a + 0 ≡ suc a = omega arith in rw e
  joined (suc a) (suc b) [] = let e : suc a + suc b ≡ suc (a + suc b) = omega arith in rw e
  joined (suc a) b (x ∷ xs) = let e : suc a + b ≡ suc (a + b) = omega arith in rw (e, joined a b xs)

  pub drop-all : (n : ℕ) (xs : List A) → length xs ≤ n → drop n xs ≡ []
  drop-all zero [] h = refl
  drop-all zero (x ∷ xs) h = absurd (omega arith)
  drop-all (suc n) [] h = refl
  drop-all (suc n) (x ∷ xs) h = drop-all n xs (omega arith)

  -- A piece and what follows it.
  pub piece_rest : (m p : ℕ) (xs : List A) → take m (drop p xs) ++ drop (p + m) xs ≡ drop p xs
  piece_rest m p xs = rw (sym (drop-drop m p xs)) (take-append-drop m (drop p xs))
