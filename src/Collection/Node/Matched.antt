-- ===== src/Collection/Node/Matched.antt =====
-- The loop of addOrUpdateStringEntry at the entry whose name begins with the byte of the key.
use mathlib.Core.List.{append-nil}
use fair_os_dfs.Prelude.{
  ℕ, ◌≡◌, ◌≢◌, inl, inr, refl, sym, ap, ◌∙◌, subst, Bool, true, false, List, [], ◌∷◌, ◌++◌, arith,
  ltb, ◌==◌, if◌then◌else◌, Bool-cases, ==_refl,
}
use fair_os_dfs.Prelude.Text.{Text, text_eq, text_eq_iff, has_prefix-append, trim_prefix-append}
use fair_os_dfs.Collection.Entries.{
  EType, leaf_entry, intermediate_entry, Entry, new_leaf, new_intermediate, Change, updated,
  divided, behind, two_entries, change_intermediate, change, longest_common_prefix, common_prefix,
  too_far,
}
use fair_os_dfs.Collection.Node.{child, entry_round, look, Above, Fits, IsNode}
use fair_os_dfs.Collection.Node.Prefix.{IsCommon, common_prefix-IsCommon, Diverge}
use fair_os_dfs.Collection.Node.Effects.{IsChanged, IsDivided, Effect}
use fair_os_dfs.Collection.Node.Here.{divide-IsDivided}

-- The round at an entry that has a prefix in common with the key, by what longestCommonPrefix says.
module _ (key name : Text) (ref : List Text) (es : List Entry) (v : Text) (apnd : Bool)
    (r : Text × Text × Text) where
  round_leaf :
      longest_common_prefix name key ≡ r
      → text_eq name key ≡ false
      → text_eq r.0 [] ≡ false
      → change key v apnd (new_leaf name ref ∷ es)
        ≡ divided
            (new_intermediate r.0 ref ∷ es)
            r.0
            (two_entries (new_leaf r.2 (v ∷ [])) (new_leaf r.1 ref))
  unfolding change
  round_leaf q differ shared = rw (differ, q, shared)

  round_intermediate :
      longest_common_prefix name key ≡ r
      → text_eq r.0 [] ≡ false
      → change key v apnd (new_intermediate name ref ∷ es)
        ≡ change_intermediate key v
            (new_intermediate name ref)
            es
            r.0
            r.1
            r.2
            (behind (new_intermediate name ref) (change key v apnd es))
  unfolding change
  round_intermediate q shared = rw (q, shared)

module _ (a : ℕ) (rest v : Text) (apnd : Bool) where
  abbrev key : Text
  key = a ∷ rest

  near : (ns k : Text) → text_eq key k ≡ true → too_far (a ∷ ns) k ≡ false
  unfolding text_eq
  near ns [] h = ground (arith, h)
  near ns (b ∷ k) h = ground (arith, h)

  common_head :
      (ns : Text)
      → longest_common_prefix (a ∷ ns) key ≡ (let r = common_prefix ns rest in (a ∷ r.0, r.1, r.2))
  unfolding longest_common_prefix common_prefix
  common_head ns = rw (==_refl a)

  module _ (ns : Text) (ref : List Text) (es : List Entry) (above : Above a es)
      (node : IsNode es) where
    abbrev leaf : Entry
    leaf = record { name = a ∷ ns; e_type = leaf_entry; ref = ref }

    abbrev refs : List Text
    refs = (if apnd then ref else []) ++ v ∷ []

    -- A leaf of the key's name gets the value.
    leaf_found :
        text_eq ns rest ≡ true
        → change key v apnd (leaf ∷ es) ≡ updated (new_leaf (a ∷ ns) refs ∷ es)
    unfolding change text_eq
    leaf_found e = let same : (a == a) ≡ true = ==_refl a in rw (same, e)

    found-IsChanged :
        text_eq ns rest ≡ true → IsChanged a rest v (leaf ∷ es) (new_leaf (a ∷ ns) refs ∷ es) refs
    unfolding look entry_round
    found-IsChanged e = record {
      node = (tt, above, node);
      above = λ d lt h. h;
      looks = λ k. elim (Bool-cases (text_eq key k)) [
        | inl q ↦ rw ((text_eq_iff ns rest).0 e, near rest k q, q)
        | inr q ↦ rw ((text_eq_iff ns rest).0 e, q)
      ];
    }

    -- A leaf of another name is divided.
    leaf_divides :
        text_eq ns rest ≡ false
        → change key v apnd (leaf ∷ es) ≡ (
            let r = common_prefix ns rest in
            divided
              (new_intermediate (a ∷ r.0) ref ∷ es)
              (a ∷ r.0)
              (two_entries (new_leaf r.2 (v ∷ [])) (new_leaf r.1 ref)))
    unfolding text_eq
    leaf_divides e =
        let r = common_prefix ns rest in
        round_leaf key (a ∷ ns) ref es v apnd (a ∷ r.0, r.1, r.2) (common_head ns)
          (rw (==_refl a) e) refl

    entry_under :
        (t : EType) (r : Text × Text × Text)
        → Fits r.1 t
        → r.1 ≢ r.2
        → IsCommon ns rest r
        → IsDivided a rest v
            ((record { name = a ∷ ns; e_type = t; ref = ref }) ∷ es)
            (new_intermediate (a ∷ r.0) ref ∷ es)
            (a ∷ r.0)
            (two_entries (new_leaf r.2 (v ∷ [])) (record {
              name = r.1;
              e_type = t;
              ref = elim t [ leaf_entry ↦ ref | intermediate_entry ↦ [] ];
            }))
    entry_under t r fits differ c = rw (sym c.first) (
        divide-IsDivided a ref rest v r.0 r.1 r.2 t
          (elim t [ leaf_entry ↦ ref | intermediate_entry ↦ [] ]) es fits c.diverge differ
          (λ q. rw q) c.second above node)

    fits_leaf : (s : Text) → Fits s leaf_entry
    fits_leaf [] = tt
    fits_leaf (x ∷ xs) = tt

    pub leaf-Effect : Effect a rest v apnd (leaf ∷ es) (change key v apnd (leaf ∷ es))
    leaf-Effect = elim (Bool-cases (text_eq ns rest)) [
      | inl e ↦ rw (leaf_found e) (refs, λ q. rw q, found-IsChanged e)
      | inr e ↦
          let r = common_prefix ns rest in
          let c = common_prefix-IsCommon ns rest in
          let differ : r.1 ≢ r.2 = λ q.
            let same = (text_eq_iff ns rest).1 (sym c.first ∙ ap (λ s. r.0 ++ s) q ∙ c.second) in
            ground (arith, e, same) in
          rw (leaf_divides e) (entry_under leaf_entry r (fits_leaf r.1) differ c)
    ]

    abbrev parent : Entry
    parent = record { name = a ∷ ns; e_type = intermediate_entry; ref = ref }

    parent_looks : (s : Text) → ns ++ s ≡ rest → look key (parent ∷ es) ≡ child (a ∷ ns) s
    unfolding look entry_round
    parent_looks s q =
        let low : ltb a a ≡ false = ground arith in
        rw (sym q, has_prefix-append (a ∷ ns) s, trim_prefix-append (a ∷ ns) s, too_far, low)

    parent_round :
        (pt s1 s2 : Text) (later : Change)
        → pt ++ s1 ≡ ns
        → pt ++ s2 ≡ rest
        → Diverge s1 s2
        → Effect a rest v apnd
            (parent ∷ es)
            (change_intermediate key v parent es (a ∷ pt) s1 s2 later)
    unfolding change_intermediate text_eq
    parent_round pt [] [] later q1 q2 d =
        let whole : pt ≡ ns = sym (append-nil pt) ∙ q1 in
        (
          rw whole (parent_looks [] (ap (λ s. s ++ []) (sym whole) ∙ q2)),
          ap (λ s. a ∷ s) q2,
          pt,
          refl,
        )
    parent_round pt [] (y ∷ ys) later q1 q2 d =
        let whole : pt ≡ ns = sym (append-nil pt) ∙ q1 in
        let parts : ns ++ y ∷ ys ≡ rest = ap (λ s. s ++ y ∷ ys) (sym whole) ∙ q2 in
        (parent_looks (y ∷ ys) parts, ap (λ s. a ∷ s) parts, ns, refl)
    parent_round pt (x ∷ xs) [] later q1 q2 d =
        subst
          (λ (p : Text).
            IsDivided a rest v (parent ∷ es) (new_intermediate p ref ∷ es) (a ∷ pt)
              (two_entries (new_leaf [] (v ∷ [])) (new_intermediate (x ∷ xs) [])))
          (ap (λ s. a ∷ s) (sym (append-nil pt) ∙ q2))
          (entry_under intermediate_entry (pt, x ∷ xs, []) tt (λ q. ground (arith, q))
            (record { first = q1; second = q2; diverge = tt }))
    parent_round pt (x ∷ xs) (y ∷ ys) later q1 q2 d =
        entry_under intermediate_entry (pt, x ∷ xs, y ∷ ys) tt (λ q. ground (arith, d, q))
          (record { first = q1; second = q2; diverge = d })

    pub parent-Effect : Effect a rest v apnd (parent ∷ es) (change key v apnd (parent ∷ es))
    unfolding text_eq
    parent-Effect =
        let r = common_prefix ns rest in
        let c = common_prefix-IsCommon ns rest in
        rw (round_intermediate key (a ∷ ns) ref es v apnd (a ∷ r.0, r.1, r.2) (common_head ns) refl)
          (parent_round r.0 r.1 r.2 (behind parent (change key v apnd es)) c.first c.second
            c.diverge)
