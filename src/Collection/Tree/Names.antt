-- ===== src/Collection/Tree/Names.antt =====
-- The names of the manifests in a tree.
use fair_os_dfs.Prelude.{
  ◌<◌, ◌≡◌, inl, inr, sym, ap, ◌∙◌, true, false, [], ◌∷◌, ◌++◌, arith, Bool-cases, length,
  length-append, append-nil, append_assoc,
}
use fair_os_dfs.Prelude.Text.{
  Text, text_eq, text_eq_iff, has_prefix, has_prefix-append, longer_differs,
}
use fair_os_dfs.Collection.Node.Children.{HeadsDiffer}
use fair_os_dfs.Collection.Node.Prefix.{has_prefix-append_both}

named_length : (n : Text) → text_eq n [] ≡ false → 0 < length n
unfolding text_eq
named_length [] h = ground (arith, h)
named_length (x ∷ n) h = omega arith

-- A name differs from those behind its child's.
pub name_behind : (m n t : Text) → text_eq n [] ≡ false → text_eq m ((m ++ n) ++ t) ≡ false
name_behind m n t named =
    longer_differs m ((m ++ n) ++ t)
      (omega (arith, length-append (m ++ n) t, length-append m n, named_length n named))

pub name_before : (m n : Text) → text_eq n [] ≡ false → text_eq m (m ++ n) ≡ false
name_before m n named =
    longer_differs m (m ++ n) (omega (arith, length-append m n, named_length n named))

heads_prefix : (n n' t : Text) → HeadsDiffer n n' → has_prefix (n' ++ t) n ≡ false
unfolding has_prefix
heads_prefix [] n' t h = absurd h
heads_prefix (c ∷ cs) [] t h = absurd h
heads_prefix (c ∷ cs) (d ∷ ds) t h = ground (arith, h)

-- Names behind one child are not behind another.
pub names_apart :
    (m n n' t : Text) → HeadsDiffer n n' → has_prefix ((m ++ n') ++ t) (m ++ n) ≡ false
names_apart m n n' t h =
    ap (λ x. has_prefix x (m ++ n)) (append_assoc m n' t)
    ∙ has_prefix-append_both m (n' ++ t) n
    ∙ heads_prefix n n' t h

-- A name is not behind its child's.
pub parent_apart : (m n : Text) → text_eq n [] ≡ false → has_prefix m (m ++ n) ≡ false
unfolding text_eq has_prefix
parent_apart m [] named = ground (arith, named)
parent_apart m (c ∷ n) named =
    ap (λ x. has_prefix x (m ++ c ∷ n)) (sym (append-nil m)) ∙ has_prefix-append_both m [] (c ∷ n)

-- What is not behind a name is another name, and not behind a longer one.
pub outside_differs : (n m : Text) → has_prefix n m ≡ false → text_eq m n ≡ false
outside_differs n m h = elim (Bool-cases (text_eq m n)) [
  | inr e ↦ e
  | inl e ↦
      let same : m ≡ n = (text_eq_iff m n).0 e in
      let whole : has_prefix m m ≡ true =
        ap (λ x. has_prefix x m) (sym (append-nil m)) ∙ has_prefix-append m [] in
      let inside : has_prefix n m ≡ true = ap (λ x. has_prefix x m) (sym same) ∙ whole in
      ground (arith, h, inside)
]
