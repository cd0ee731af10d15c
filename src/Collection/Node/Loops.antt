-- ===== src/Collection/Node/Loops.antt =====
-- The loop of addOrUpdateStringEntry followed by the loop of findManifest (pkg/collection/index_api.go),
-- both over the entries of one manifest.
use fair_os_dfs.Prelude.{
  ℕ, ◌≡◌, refl, ◌∙◌, subst, arith, Bool, false, List, [], ◌∷◌, ◌++◌, some, if◌then◌else◌,
}
use fair_os_dfs.Prelude.Text.{Text, text_eq, has_prefix, trim_prefix}
use fair_os_dfs.Collection.Entries.{
  Entry, new_leaf, Change, unchanged, updated, divided, descends, change, add_loop,
  add_entry_sorted, scan,
}
use fair_os_dfs.Collection.Node.{
  Look, value, child, entry_round, look, look_of, scan-look, IsNode, HasChild,
}
use fair_os_dfs.Collection.Node.Division.{lift}
use fair_os_dfs.Collection.Node.Effects.{Effect}
use fair_os_dfs.Collection.Node.Entered.{change-Effect}

-- What findManifest says of a key in the entries.
abbrev pub found : Text → List Entry → Look
found k es = look_of (scan 0 k es)

-- The new entries are in order, the key is found with the references, every other key is found as
-- before.
abbrev pub Replaced : Text → List Text → List Entry → List Entry → Type 0
Replaced key refs es es' =
    IsNode es' × ((k : Text) → found k es' ≡ (if text_eq key k then value refs else found k es))

looks-Replaced :
    (key : Text) (refs : List Text) (es es' : List Entry)
    → IsNode es'
    → ((k : Text) → look k es' ≡ (if text_eq key k then value refs else look k es))
    → Replaced key refs es es'
looks-Replaced key refs es es' node looks =
    (node, λ k. rw (scan-look 0 k es', scan-look 0 k es) (looks k))

added-entries :
    (key v : Text) (es es' : List Entry)
    → text_eq key [] ≡ false
    → add_loop (new_leaf key (v ∷ [])) false es ≡ some es'
    → add_entry_sorted (new_leaf key (v ∷ [])) es ≡ es'
unfolding add_entry_sorted add_loop
added-entries key v [] es' named q = ground (arith, q)
added-entries key v (e ∷ es) es' named q = rw (named, q)

module _ (a : ℕ) (rest v : Text) (apnd : Bool) (es : List Entry) (node : IsNode es) where
  abbrev key : Text
  key = a ∷ rest

  Effect-of : (c : Change) → change key v apnd es ≡ c → Effect a rest v apnd es c
  Effect-of c q = subst (Effect a rest v apnd es) q (change-Effect a rest v apnd es node)

  -- In a manifest whose entries are in order (the empty name first, then names with rising first
  -- bytes), when the loop of addOrUpdateStringEntry finds nothing that fits a key that is not
  -- empty, the entries with the key's leaf added are in order again, findManifest finds the key
  -- with the value, and finds every other key as before.
  pub added-Replaced :
      change key v apnd es ≡ unchanged
      → Replaced key (v ∷ []) es (add_entry_sorted (new_leaf key (v ∷ [])) es)
  unfolding text_eq
  added-Replaced q =
      let (es', added, c) = Effect-of unchanged q in
      rw (added-entries key v es es' refl added) (looks-Replaced key (v ∷ []) es es' c.node c.looks)

  -- In a manifest whose entries are in order (the empty name first, then names with rising first
  -- bytes), when the loop of addOrUpdateStringEntry updates the leaf of a key that is not empty,
  -- the entries are in order again, findManifest finds the key with new references, the value
  -- alone unless Put appends, and finds every other key as before.
  pub updated-Replaced :
      (es' : List Entry)
      → change key v apnd es ≡ updated es'
      → (refs : List Text) × (apnd ≡ false → refs ≡ v ∷ []) × Replaced key refs es es'
  updated-Replaced es' q =
      let (refs, replaces, c) = Effect-of (updated es') q in
      (refs, replaces, looks-Replaced key refs es es' c.node c.looks)

  -- In a manifest whose entries are in order (the empty name first, then names with rising first
  -- bytes), when the loop of addOrUpdateStringEntry divides an entry for a key that is not empty,
  -- the entries and those of the new manifest are in order, findManifest goes to the new manifest
  -- for exactly the keys that have its prefix and finds the others as before, and in the new
  -- manifest it finds the rest of the key with the value, and every other rest as the entries said
  -- before, with the prefix in front of the name of a child.
  pub divided-found :
      (es' new : List Entry) (p : Text)
      → change key v apnd es ≡ divided es' p new
      → (suffix : Text) × (p ++ suffix ≡ key)
        × IsNode es'
        × IsNode new
        × ((k : Text)
            → found k es' ≡ (if has_prefix k p then child p (trim_prefix k p) else found k es))
        × (found suffix new ≡ value (v ∷ []))
        × ((k : Text) → text_eq suffix k ≡ false → found (p ++ k) es ≡ lift p (found k new))
  divided-found es' new p q =
      let c = Effect-of (divided es' p new) q in
      (
        c.suffix,
        c.key_parts,
        c.node,
        c.new_node,
        λ k. rw (scan-look 0 k es', scan-look 0 k es) (c.looks k),
        scan-look 0 c.suffix new ∙ c.looks_new,
        λ k h. rw (scan-look 0 (p ++ k) es, scan-look 0 k new) (c.looks_old k h),
      )

  -- No child's name goes into the prefix of a divided entry, which has a byte.
  pub divided-apart :
      (es' new : List Entry) (p : Text)
      → change key v apnd es ≡ divided es' p new
      → (text_eq p [] ≡ false) × ((n u : Text) → HasChild n es → n ++ u ≡ p → ⊥)
  unfolding text_eq
  divided-apart es' new p q = let c = Effect-of (divided es' p new) q in (rw c.prefix refl, c.apart)

  -- In a manifest whose entries are in order (the empty name first, then names with rising first
  -- bytes), when the loop of addOrUpdateStringEntry goes on in a child for a key that is not
  -- empty, findManifest goes to the same child with the same rest of the key, and the child's name
  -- and the rest make up the key.
  pub descends-found :
      (n r : Text)
      → change key v apnd es ≡ descends n r
      → (found key es ≡ child n r) × (n ++ r ≡ key)
  descends-found n r q =
      let (looks, parts, tail, head) = Effect-of (descends n r) q in
      (scan-look 0 key es ∙ looks, parts)

-- In a manifest whose entries are in order (the empty name first, then names with rising first
-- bytes), after a leaf with the empty name is added the entries are in order again, findManifest
-- finds the empty key with the new value, whatever it found before, and finds every other key as
-- before.
pub empty-Replaced :
    (v : Text) (es : List Entry)
    → IsNode es
    → Replaced [] (v ∷ []) es (add_entry_sorted (new_leaf [] (v ∷ [])) es)
unfolding add_entry_sorted look entry_round text_eq
empty-Replaced v [] node =
    looks-Replaced [] (v ∷ []) [] (new_leaf [] (v ∷ []) ∷ []) (tt, tt, tt) (λ k. refl)
empty-Replaced v (e ∷ es) node =
    looks-Replaced [] (v ∷ []) (e ∷ es) (new_leaf [] (v ∷ []) ∷ e ∷ es) (tt, tt, node) (λ k. refl)
