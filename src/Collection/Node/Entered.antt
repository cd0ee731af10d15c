-- ===== src/Collection/Node/Entered.antt =====
-- What addOrUpdateStringEntry makes of the entries of one manifest (pkg/collection/index_api.go).
use fair_os_dfs.Prelude.{
  ℕ, ◌≡◌, ◌<◌, inl, inr, subst, Bool, List, [], ◌∷◌, arith, ltb, ◌==◌, Bool-cases, ==_iff, ltb→lt,
}
use fair_os_dfs.Prelude.Text.{Text}
use fair_os_dfs.Collection.Entries.{EType, leaf_entry, intermediate_entry, Entry, new_leaf, change}
use fair_os_dfs.Collection.Node.{Above, After, Fits, IsNode, Skips}
use fair_os_dfs.Collection.Node.Effects.{Effect, front-IsChanged}
use fair_os_dfs.Collection.Node.Changes.{
  passed, Above-weaken, Above-unchanged, Above-inserted, behind-Effect,
}
use fair_os_dfs.Collection.Node.Matched.{leaf-Effect, parent-Effect}

module _ (a : ℕ) (rest v : Text) (apnd : Bool) where
  abbrev key : Text
  key = a ∷ rest

  front-Effect :
      (es : List Entry) → Above a es → IsNode es → Effect a rest v apnd es (change key v apnd es)
  front-Effect es above node = rw (Above-unchanged a rest v apnd es above) (
    new_leaf key (v ∷ []) ∷ es,
    Above-inserted a rest v apnd es above,
    front-IsChanged a rest v es above node,
  )

  skips-Effect :
      (name : Text) (t : EType) (ref : List Text) (es : List Entry)
      → Skips a name t
      → Fits name t
      → After name es
      → Effect a rest v apnd es (change key v apnd es)
      → Effect a rest v apnd
          ((record { name = name; e_type = t; ref = ref }) ∷ es)
          (change key v apnd ((record { name = name; e_type = t; ref = ref }) ∷ es))
  skips-Effect name t ref es skips fits after ih =
      rw (passed a rest v apnd name t ref es skips)
        (behind-Effect a rest v apnd name t ref es skips fits after (change key v apnd es) ih)

  matched-Effect :
      (ns : Text) (t : EType) (ref : List Text) (es : List Entry)
      → Above a es
      → IsNode es
      → Effect a rest v apnd
          ((record { name = a ∷ ns; e_type = t; ref = ref }) ∷ es)
          (change key v apnd ((record { name = a ∷ ns; e_type = t; ref = ref }) ∷ es))
  matched-Effect ns leaf_entry ref es above node = leaf-Effect a rest v apnd ns ref es above node
  matched-Effect ns intermediate_entry ref es above node =
      parent-Effect a rest v apnd ns ref es above node

  entry-Effect :
      (name : Text) (t : EType) (ref : List Text) (es : List Entry)
      → Fits name t
      → After name es
      → IsNode es
      → Effect a rest v apnd es (change key v apnd es)
      → Effect a rest v apnd
          ((record { name = name; e_type = t; ref = ref }) ∷ es)
          (change key v apnd ((record { name = name; e_type = t; ref = ref }) ∷ es))
  entry-Effect [] leaf_entry ref es fits after node ih =
      skips-Effect [] leaf_entry ref es tt fits after ih
  entry-Effect [] intermediate_entry ref es fits after node ih = absurd fits
  entry-Effect (d ∷ ds) t ref es fits after node ih = elim (Bool-cases (ltb d a)) [
    | inl q ↦ skips-Effect (d ∷ ds) t ref es (ltb→lt d a q) fits after ih
    | inr q ↦ elim (Bool-cases (d == a)) [
      | inl e ↦
          let same : d ≡ a = (==_iff d a).0 e in
          rw same (matched-Effect ds t ref es (subst (λ c. Above c es) same after) node)
      | inr e ↦
          let lt : a < d = ground (arith, q, e) in
          front-Effect ((record { name = d ∷ ds; e_type = t; ref = ref }) ∷ es)
            (lt, Above-weaken a d es (ground arith) after) (fits, after, node)
    ]
  ]

  pub change-Effect : (es : List Entry) → IsNode es → Effect a rest v apnd es (change key v apnd es)
  change-Effect [] node = front-Effect [] tt tt
  change-Effect (e ∷ es) (fits, after, node) =
      entry-Effect e.name e.e_type e.ref es fits after node (change-Effect es node)
