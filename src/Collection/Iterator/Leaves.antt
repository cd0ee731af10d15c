-- ===== src/Collection/Iterator/Leaves.antt =====
-- The leaves and children among the entries of a manifest that is in order.
use fair_os_dfs.Prelude.{
  arith, ℕ, ◌<◌, ◌≡◌, ◌⊎◌, inl, inr, refl, sym, ◌∙◌, subst, List, [], ◌∷◌, ◌++◌, Bool-cases,
}
use fair_os_dfs.Prelude.Text.{
  Text, text_eq, text_eq_iff, text_eq_refl, has_prefix, has_prefix-append, trim_prefix-append,
}
use fair_os_dfs.Collection.Entries.{EType, leaf_entry, intermediate_entry, Entry, too_far}
use fair_os_dfs.Collection.Node.{
  Look, value, child, entry_round, look, scan-look, HeadAbove, Above, After, Fits, IsNode, HasChild,
  HasChild-Above, Skips, round_skips,
}
use fair_os_dfs.Collection.Node.Loops.{found}
use fair_os_dfs.Collection.Node.Children.{HasChild-named}

-- A leaf of that name with those references is among the entries.
abbrev pub HasLeaf : Text → List Text → List Entry → Type 0
HasLeaf k ref [] = ⊥
HasLeaf k ref (e ∷ es) = ((e.name ≡ k) × (e.e_type ≡ leaf_entry) × (e.ref ≡ ref)) ⊎ HasLeaf k ref es

HasLeaf-Above :
    (c : ℕ) (k : Text) (ref : List Text) (es : List Entry)
    → HasLeaf k ref es
    → Above c es
    → HeadAbove c k
HasLeaf-Above c k ref [] has h = absurd has
HasLeaf-Above c k ref (e ∷ es) (inl (q, t, r)) h = subst (HeadAbove c) q h.0
HasLeaf-Above c k ref (e ∷ es) (inr later) h = HasLeaf-Above c k ref es later h.1

round_value :
    (name : Text) (t : EType) (ref refs : List Text) (k : Text) (later : Look)
    → entry_round name t ref k later ≡ value refs
    → ((name ≡ k) × (t ≡ leaf_entry) × (ref ≡ refs)) ⊎ (later ≡ value refs)
unfolding entry_round
round_value name leaf_entry ref refs k later h = elim (Bool-cases (too_far name k)) [
  | inl q ↦ ground (arith, rw (entry_round, q) at h)
  | inr q ↦ elim (Bool-cases (text_eq name k)) [
    | inl e ↦
        let g : value ref ≡ value refs = rw (entry_round, q, e) at h in
        inl ((text_eq_iff name k).0 e, refl, ground (arith, g))
    | inr e ↦ inr (rw (entry_round, q, e) at h)
  ]
]
round_value name intermediate_entry ref refs k later h = elim (Bool-cases (too_far name k)) [
  | inl q ↦ ground (arith, rw (entry_round, q) at h)
  | inr q ↦ elim (Bool-cases (has_prefix k name)) [
    | inl e ↦ ground (arith, rw (entry_round, q, e) at h)
    | inr e ↦ inr (rw (entry_round, q, e) at h)
  ]
]

look_leaf :
    (k : Text) (refs : List Text) (es : List Entry) → look k es ≡ value refs → HasLeaf k refs es
unfolding look
look_leaf k refs [] h = ground (arith, h)
look_leaf k refs (e ∷ es) h = elim (round_value e.name e.e_type e.ref refs k (look k es) h) [
  | inl here ↦ inl here
  | inr later ↦ inr (look_leaf k refs es later)
]

-- The references that findManifest finds are those of a leaf.
pub found_leaf :
    (k : Text) (refs : List Text) (es : List Entry) → found k es ≡ value refs → HasLeaf k refs es
found_leaf k refs es h = look_leaf k refs es (sym (scan-look 0 k es) ∙ h)

named_leaf :
    (k : Text) (ref : List Text) (later : Look) → entry_round k leaf_entry ref k later ≡ value ref
unfolding entry_round
named_leaf [] ref later = rw (text_eq_refl []) refl
named_leaf (a ∷ k) ref later = ground (arith, text_eq_refl (a ∷ k))

named_child :
    (n r : Text) (ref : List Text) (later : Look)
    → entry_round n intermediate_entry ref (n ++ r) later ≡ child n r
unfolding entry_round
named_child [] r ref later = rw (has_prefix-append [] r, trim_prefix-append [] r) refl
named_child (a ∷ n) r ref later =
    rw (has_prefix-append (a ∷ n) r, trim_prefix-append (a ∷ n) r) (ground arith)

below_Skips :
    (a : ℕ) (name : Text) (t : EType) (es : List Entry)
    → Fits name t
    → After name es
    → ((c : ℕ) → Above c es → c < a)
    → Skips a name t
below_Skips a [] leaf_entry es fits after h = tt
below_Skips a [] intermediate_entry es fits after h = absurd fits
below_Skips a (d ∷ ds) t es fits after h = h d after

-- A key behind a child's name is found in that child.
look-HasChild :
    (n r : Text) (es : List Entry) → IsNode es → HasChild n es → look (n ++ r) es ≡ child n r
unfolding look
look-HasChild n r [] node has = absurd has
look-HasChild n r (e ∷ es) node (inl (q, t)) = rw (q, t) (named_child n r e.ref (look (n ++ r) es))
look-HasChild [] r (e ∷ es) node (inr has) =
    let named = HasChild-named [] es node.2 has in ground (arith, named, text_eq_refl [])
look-HasChild (a ∷ n) r (e ∷ es) (fits, after, node) (inr has) =
    round_skips a e.name e.e_type e.ref (n ++ r) (look (a ∷ n ++ r) es) (
      below_Skips a e.name e.e_type es fits after
        (λ c above. HasChild-Above c (a ∷ n) es has above))
    ∙ look-HasChild (a ∷ n) r es node has

pub HasChild-found :
    (n r : Text) (es : List Entry) → IsNode es → HasChild n es → found (n ++ r) es ≡ child n r
HasChild-found n r es node has = scan-look 0 (n ++ r) es ∙ look-HasChild n r es node has

-- The name of a leaf is found, if with other references where a leaf of the same name is in front.
look-HasLeaf :
    (k : Text) (ref : List Text) (es : List Entry)
    → IsNode es
    → HasLeaf k ref es
    → (refs : List Text) × (look k es ≡ value refs)
unfolding look
look-HasLeaf k ref [] node has = absurd has
look-HasLeaf k ref (e ∷ es) node (inl (q, t, r)) =
    (e.ref, rw (q, t) (named_leaf k e.ref (look k es)))
look-HasLeaf [] ref (e ∷ es) (fits, after, node) (inr has) = front e.name e.e_type e.ref fits after
  where
    front :
        (name : Text) (t : EType) (had : List Text)
        → Fits name t
        → After name es
        → (refs : List Text) × (entry_round name t had [] (look [] es) ≡ value refs)
    front [] leaf_entry had fits after = (had, named_leaf [] had (look [] es))
    front [] intermediate_entry had fits after = absurd fits
    front (d ∷ ds) t had fits after = absurd (HasLeaf-Above d [] ref es has after)
look-HasLeaf (a ∷ k) ref (e ∷ es) (fits, after, node) (inr has) =
    let (refs, q) = look-HasLeaf (a ∷ k) ref es node has in
    (
      refs,
      round_skips a e.name e.e_type e.ref k (look (a ∷ k) es) (
            below_Skips a e.name e.e_type es fits after
              (λ c above. HasLeaf-Above c (a ∷ k) ref es has above))
          ∙ q,
    )

pub HasLeaf-found :
    (k : Text) (ref : List Text) (es : List Entry)
    → IsNode es
    → HasLeaf k ref es
    → (refs : List Text) × (found k es ≡ value refs)
HasLeaf-found k ref es node has =
    let (refs, q) = look-HasLeaf k ref es node has in (refs, scan-look 0 k es ∙ q)
