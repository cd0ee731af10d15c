-- ===== src/Collection/Node/Children.antt =====
-- The children that the entries of a manifest name.
use fair_os_dfs.Prelude.{
  ℕ, ◌≡◌, ◌≢◌, ◌⊎◌, inl, inr, refl, sym, ◌∙◌, subst, false, List, [], ◌∷◌, ◌++◌, arith, Bool-cases,
}
use fair_os_dfs.Prelude.Text.{Text, text_eq, has_prefix, trim_prefix, append-trim_prefix}
use fair_os_dfs.Collection.Entries.{EType, leaf_entry, intermediate_entry, Entry, too_far}
use fair_os_dfs.Collection.Node.{
  Look, child, entry_round, look, scan-look, HeadAbove, After, Fits, IsNode, HasChild,
  HasChild-Above,
}
use fair_os_dfs.Collection.Node.Loops.{found}

round_child :
    (name : Text) (t : EType) (ref : List Text) (k n r : Text) (later : Look)
    → entry_round name t ref k later ≡ child n r
    → ((name ≡ n) × (t ≡ intermediate_entry) × (n ++ r ≡ k)) ⊎ (later ≡ child n r)
unfolding entry_round
round_child name leaf_entry ref k n r later h = elim (Bool-cases (too_far name k)) [
  | inl q ↦ ground (arith, rw (entry_round, q) at h)
  | inr q ↦ elim (Bool-cases (text_eq name k)) [
    | inl e ↦ ground (arith, rw (entry_round, q, e) at h)
    | inr e ↦ inr (rw (entry_round, q, e) at h)
  ]
]
round_child name intermediate_entry ref k n r later h = elim (Bool-cases (too_far name k)) [
  | inl q ↦ ground (arith, rw (entry_round, q) at h)
  | inr q ↦ elim (Bool-cases (has_prefix k name)) [
    | inl e ↦
        let g : child name (trim_prefix k name) ≡ child n r = rw (entry_round, q, e) at h in
        let named : name ≡ n = ground (arith, g) in
        let rest : trim_prefix k name ≡ r = ground (arith, g) in
        inl (named, refl, rw (sym named, sym rest) (append-trim_prefix k name e))
    | inr e ↦ inr (rw (entry_round, q, e) at h)
  ]
]

look_child : (k n r : Text) (es : List Entry) → look k es ≡ child n r → HasChild n es × (n ++ r ≡ k)
unfolding look
look_child k n r [] h = ground (arith, h)
look_child k n r (e ∷ es) h = elim (round_child e.name e.e_type e.ref k n r (look k es) h) [
  | inl (q, t, parts) ↦ (inl (q, t), parts)
  | inr later ↦ let ih = look_child k n r es later in (inr ih.0, ih.1)
]

-- A child that findManifest goes to is among the entries, and its name and the rest make up the key.
pub found_child :
    (k n r : Text) (es : List Entry) → found k es ≡ child n r → HasChild n es × (n ++ r ≡ k)
found_child k n r es h = look_child k n r es (sym (scan-look 0 k es) ∙ h)

abbrev pub HeadsDiffer : Text → Text → Type 0
HeadsDiffer [] n = ⊥
HeadsDiffer (c ∷ cs) [] = ⊥
HeadsDiffer (c ∷ cs) (d ∷ ds) = c ≢ d

above_differs : (c : ℕ) (cs n : Text) → HeadAbove c n → HeadsDiffer (c ∷ cs) n
above_differs c cs [] h = h
above_differs c cs (d ∷ ds) h = ground arith

differs_above : (c : ℕ) (cs n : Text) → HeadAbove c n → HeadsDiffer n (c ∷ cs)
differs_above c cs [] h = h
differs_above c cs (d ∷ ds) h = ground arith

-- The entry in front, and a child behind it.
front_differs :
    (name n : Text) (t : EType) (es : List Entry)
    → t ≡ intermediate_entry
    → Fits name t
    → After name es
    → HasChild n es
    → HeadsDiffer name n × HeadsDiffer n name
front_differs [] n leaf_entry es i fits after has = ground (arith, i)
front_differs [] n intermediate_entry es i fits after has = absurd fits
front_differs (c ∷ cs) n t es i fits after has =
    let h = HasChild-Above c n es has after in (above_differs c cs n h, differs_above c cs n h)

-- Two children have one name, or names that begin differently.
pub children_apart :
    (n n' : Text) (es : List Entry)
    → IsNode es
    → HasChild n es
    → HasChild n' es
    → (n ≡ n') ⊎ HeadsDiffer n n'
children_apart n n' [] node has has' = absurd has
children_apart n n' (e ∷ es) (fits, after, node) (inl (q, i)) (inl (q', i')) = inl (sym q ∙ q')
children_apart n n' (e ∷ es) (fits, after, node) (inl (q, i)) (inr later) =
    inr (subst (λ x. HeadsDiffer x n') q (front_differs e.name n' e.e_type es i fits after later).0)
children_apart n n' (e ∷ es) (fits, after, node) (inr later) (inl (q, i)) =
    inr (subst (λ x. HeadsDiffer n x) q (front_differs e.name n e.e_type es i fits after later).1)
children_apart n n' (e ∷ es) (fits, after, node) (inr has) (inr has') =
    children_apart n n' es node has has'

-- A child's name is not empty.
pub HasChild-named : (n : Text) (es : List Entry) → IsNode es → HasChild n es → text_eq n [] ≡ false
unfolding text_eq
HasChild-named n [] node has = absurd has
HasChild-named n (e ∷ es) (fits, after, node) (inr later) = HasChild-named n es node later
HasChild-named n (e ∷ es) (fits, after, node) (inl (q, i)) =
    subst (λ x. text_eq x [] ≡ false) q (own e.name e.e_type i fits)
  where
    own : (name : Text) (t : EType) → t ≡ intermediate_entry → Fits name t → text_eq name [] ≡ false
    own [] leaf_entry i fits = ground (arith, i)
    own [] intermediate_entry i fits = absurd fits
    own (c ∷ cs) t i fits = refl
