-- ===== src/Collection/Node/Removed.antt =====
-- The entry that Delete cuts out of a manifest (pkg/collection/index_api.go).
use fair_os_dfs.Prelude.{
  ℕ, zero, suc, ◌+◌, ◌≡◌, ◌<◌, inl, inr, sym, ap, subst, false, List, [], ◌∷◌, Option, none, some,
  arith, ltb, ◌==◌, if◌then◌else◌, Bool-cases, ltb→lt,
}
use fair_os_dfs.Prelude.Text.{Text, text_eq, text_eq_iff, has_prefix}
use fair_os_dfs.Collection.Entries.{
  EType, leaf_entry, intermediate_entry, Entry, new_leaf, too_far, Scan, missing, here, branch,
  scan, remove_at,
}
use fair_os_dfs.Collection.Node.{
  absent, entry_round, look, scan-look, Above, After, IsNode, Above-absent,
}
use fair_os_dfs.Collection.Node.Loops.{found}

Above-remove : (d j : ℕ) (es : List Entry) → Above d es → Above d (remove_at j es)
unfolding remove_at
Above-remove d j [] h = tt
Above-remove d zero (e ∷ es) h = h.1
Above-remove d (suc j) (e ∷ es) h = (h.0, Above-remove d j es h.1)

After-remove : (name : Text) (j : ℕ) (es : List Entry) → After name es → After name (remove_at j es)
After-remove [] j es h = tt
After-remove (d ∷ ds) j es h = Above-remove d j es h

IsNode-remove : (j : ℕ) (es : List Entry) → IsNode es → IsNode (remove_at j es)
unfolding remove_at
IsNode-remove j [] h = tt
IsNode-remove zero (e ∷ es) h = h.2
IsNode-remove (suc j) (e ∷ es) (fits, after, node) =
    (fits, After-remove e.name j es after, IsNode-remove j es node)

module _ (a : ℕ) (rest : Text) where
  abbrev key : Text
  key = a ∷ rest

  -- Behind the leaf of the key nothing answers for a key that the leaf is too far for.
  leaf_gone :
      (ref : List Text) (es : List Entry)
      → Above a es
      → (k : Text) → look k es ≡ (if text_eq key k then absent else look k (new_leaf key ref ∷ es))
  unfolding look entry_round text_eq
  leaf_gone ref es above [] = (Above-absent a es above).0
  leaf_gone ref es above (b ∷ bs) = elim (Bool-cases (ltb b a)) [
    | inl q ↦
        let lt : b < a = ltb→lt b a q in
        let differ : (a == b) ≡ false = ground arith in
        rw (q, differ) ((Above-absent a es above).1 b bs (ground arith))
    | inr q ↦ elim (Bool-cases (text_eq key (b ∷ bs))) [
      | inl e ↦
          let same = (text_eq_iff key (b ∷ bs)).0 e in
          rw (e) (
            subst (λ k. look k es ≡ absent) same
              ((Above-absent a es above).1 a rest (ground arith)))
      | inr e ↦ rw (q, e)
    ]
  ]

  abbrev Gone : List Entry → List Entry → Type 0
  Gone es es' = (k : Text) → look k es' ≡ (if text_eq key k then absent else look k es)

  later-Gone :
      (e : Entry) (es es' : List Entry)
      → entry_round e.name e.e_type e.ref key absent ≡ absent
      → Gone es es'
      → Gone (e ∷ es) (e ∷ es')
  unfolding look
  later-Gone e es es' over h k = elim (Bool-cases (text_eq key k)) [
    | inl q ↦ rw (h k, q) (rw (sym ((text_eq_iff key k).0 q)) over)
    | inr q ↦ rw (h k, q)
  ]

  abbrev index_of : Scan → Option ℕ
  index_of missing = none
  index_of (here i e) = some i
  index_of (branch name r) = none

  abbrev Cut : ℕ → ℕ → List Entry → Type 0
  Cut n i es = (j : ℕ) × (i ≡ n + j) × Gone es (remove_at j es)

  later-Cut :
      (n i : ℕ) (e : Entry) (es : List Entry)
      → entry_round e.name e.e_type e.ref key absent ≡ absent
      → Cut (suc n) i es
      → Cut n i (e ∷ es)
  unfolding remove_at
  later-Cut n i e es over (j, q, gone) =
      (suc j, omega (arith, q), later-Gone e es (remove_at j es) over gone)

  entry-Cut :
      (n i : ℕ) (name : Text) (t : EType) (ref : List Text) (es : List Entry)
      → After name es
      → (index_of (scan (suc n) key es) ≡ some i → Cut (suc n) i es)
      → index_of (scan n key ((record { name = name; e_type = t; ref = ref }) ∷ es)) ≡ some i
      → Cut n i ((record { name = name; e_type = t; ref = ref }) ∷ es)
  unfolding scan remove_at entry_round
  entry-Cut n i name leaf_entry ref es after ih h = elim (Bool-cases (too_far name key)) [
    | inl q ↦ ground (arith, rw (scan, q) at h)
    | inr q ↦ elim (Bool-cases (text_eq name key)) [
      | inl e ↦
          let same : name ≡ key = (text_eq_iff name key).0 e in
          let first : n ≡ i = ground (arith, rw (scan, q, e) at h) in
          (0, omega (arith, first), rw same (leaf_gone ref es (subst (λ x. After x es) same after)))
      | inr e ↦
          later-Cut n i (new_leaf name ref) es (rw (entry_round, q, e)) (ih (rw (scan, q, e) at h))
    ]
  ]
  entry-Cut n i name intermediate_entry ref es after ih h = elim (Bool-cases (too_far name key)) [
    | inl q ↦ ground (arith, rw (scan, q) at h)
    | inr q ↦ elim (Bool-cases (has_prefix key name)) [
      | inl e ↦ ground (arith, rw (scan, q, e) at h)
      | inr e ↦
          later-Cut n i (record { name = name; e_type = intermediate_entry; ref = ref }) es
            (rw (entry_round, q, e)) (ih (rw (scan, q, e) at h))
    ]
  ]

  scan-Cut :
      (n i : ℕ) (es : List Entry) → IsNode es → index_of (scan n key es) ≡ some i → Cut n i es
  unfolding scan
  scan-Cut n i [] node h = ground (arith, h)
  scan-Cut n i (e ∷ es) (fits, after, node) h =
      entry-Cut n i e.name e.e_type e.ref es after (scan-Cut (suc n) i es node) h

  -- In a manifest whose entries are in order (the empty name first, then names with rising first
  -- bytes), when findManifest finds the leaf of a key that is not empty, the entries without the
  -- one at its index, as Delete leaves them, are in order, findManifest does not find the key in
  -- them, and finds every other key as before.
  pub removed-found :
      (es : List Entry) (i : ℕ) (e : Entry)
      → IsNode es
      → scan 0 key es ≡ here i e
      → IsNode (remove_at i es)
        × ((k : Text) → found k (remove_at i es) ≡ (if text_eq key k then absent else found k es))
  removed-found es i e node h =
      let (j, q, gone) = scan-Cut 0 i es node (ap index_of h) in
      let same : j ≡ i = omega (arith, q) in
      (
        IsNode-remove i es node,
        λ k.
            rw (scan-look 0 k (remove_at i es), scan-look 0 k es)
              (subst (λ n. look k (remove_at n es) ≡ (if text_eq key k then absent else look k es))
                same (gone k)),
      )
