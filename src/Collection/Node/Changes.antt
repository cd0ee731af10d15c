-- ===== src/Collection/Node/Changes.antt =====
-- The loop of addOrUpdateStringEntry over the entries of one manifest, for a key that is not empty.
use fair_os_dfs.Prelude.{
  ℕ, ◌≡◌, ◌≤◌, inl, inr, refl, ◌∙◌, Bool, true, false, not, ◌&&◌, List, [], ◌∷◌, some, arith, ◌==◌,
  Bool-cases,
}
use fair_os_dfs.Prelude.Text.{Text, text_eq}
use fair_os_dfs.Collection.Entries.{
  EType, leaf_entry, intermediate_entry, Entry, new_leaf, Change, unchanged, updated, divided,
  descends, behind, change, longest_common_prefix, common_prefix, add_loop, put_front, first_after,
}
use fair_os_dfs.Collection.Node.{look, HeadAbove, Above, After, Fits, Skips, round_skips}
use fair_os_dfs.Collection.Node.Effects.{Effect, later-IsChanged, later-IsDivided}

pub Above-weaken : (c d : ℕ) (es : List Entry) → c ≤ d → Above d es → Above c es
Above-weaken c d [] le h = tt
Above-weaken c d (e ∷ es) le h = (name_above e.name h.0, Above-weaken c d es le h.1)
  where
    name_above : (name : Text) → HeadAbove d name → HeadAbove c name
    name_above [] h = h
    name_above (x ∷ xs) h = ground arith

module _ (a : ℕ) (rest v : Text) (apnd : Bool) where
  abbrev key : Text
  key = a ∷ rest

  abbrev new : Entry
  new = new_leaf key (v ∷ [])

  -- A name that no key beginning with `a` stops at is passed over, and so is one above.
  pub passed :
      (name : Text) (t : EType) (ref : List Text) (es : List Entry)
      → Skips a name t
      → change key v apnd ((record { name = name; e_type = t; ref = ref }) ∷ es)
        ≡ behind (record { name = name; e_type = t; ref = ref }) (change key v apnd es)
  unfolding change longest_common_prefix common_prefix text_eq
  passed [] leaf_entry ref es h = refl
  passed [] intermediate_entry ref es h = absurd h
  passed (d ∷ ds) leaf_entry ref es h = let no : (d == a) ≡ false = ground arith in rw no
  passed (d ∷ ds) intermediate_entry ref es h = let no : (d == a) ≡ false = ground arith in rw no

  passed_above :
      (name : Text) (t : EType) (ref : List Text) (es : List Entry)
      → HeadAbove a name
      → change key v apnd ((record { name = name; e_type = t; ref = ref }) ∷ es)
        ≡ behind (record { name = name; e_type = t; ref = ref }) (change key v apnd es)
  unfolding change longest_common_prefix common_prefix text_eq
  passed_above [] t ref es h = absurd h
  passed_above (d ∷ ds) leaf_entry ref es h = let no : (d == a) ≡ false = ground arith in rw no
  passed_above (d ∷ ds) intermediate_entry ref es h =
      let no : (d == a) ≡ false = ground arith in rw no

  pub Above-unchanged : (es : List Entry) → Above a es → change key v apnd es ≡ unchanged
  unfolding change
  Above-unchanged [] h = refl
  Above-unchanged (e ∷ es) h =
      passed_above e.name e.e_type e.ref es h.0 ∙ rw (Above-unchanged es h.1)

  -- The loop copies an entry of another name, unless the leaf goes in front of it.
  add_loop_copies :
      (added : Bool) (e : Entry) (es : List Entry)
      → text_eq e.name key ≡ false
      → (not added && first_after e.name key) ≡ false
      → add_loop new added (e ∷ es) ≡ put_front e (add_loop new added es)
  unfolding add_loop
  add_loop_copies true e es differ h = elim (Bool-cases (text_eq e.name [])) [
    | inl q ↦ rw (differ, q)
    | inr q ↦ rw (differ, q)
  ]
  add_loop_copies false e es differ h = elim (Bool-cases (text_eq e.name [])) [
    | inl q ↦ rw (differ, h, q)
    | inr q ↦ rw (differ, h, q)
  ]

  add_loop_inserts :
      (e : Entry) (es : List Entry)
      → text_eq e.name key ≡ false
      → first_after e.name key ≡ true
      → text_eq e.name [] ≡ false
      → add_loop new false (e ∷ es) ≡ put_front new (put_front e (add_loop new true es))
  unfolding add_loop
  add_loop_inserts e es differ h named = rw (differ, h, named)

  Above-differs : (name : Text) → HeadAbove a name → text_eq name key ≡ false
  unfolding text_eq
  Above-differs [] h = absurd h
  Above-differs (d ∷ ds) h = ground arith

  -- Once the key's leaf is in, the names above are copied.
  Above-added : (es : List Entry) → Above a es → add_loop new true es ≡ some es
  unfolding add_loop
  Above-added [] h = refl
  Above-added (e ∷ es) h =
      add_loop_copies true e es (Above-differs e.name h.0) refl ∙ rw (Above-added es h.1)

  pub Above-inserted : (es : List Entry) → Above a es → add_loop new false es ≡ some (new ∷ es)
  unfolding add_loop text_eq
  Above-inserted [] h = refl
  Above-inserted (e ∷ es) h =
      add_loop_inserts e es (Above-differs e.name h.0) (later_first e.name h.0) (named e.name h.0)
      ∙ rw (Above-added es h.1)
    where
      later_first : (name : Text) → HeadAbove a name → first_after name key ≡ true
      later_first [] h = absurd h
      later_first (d ∷ ds) h = ground arith

      named : (name : Text) → HeadAbove a name → text_eq name [] ≡ false
      named [] h = absurd h
      named (d ∷ ds) h = refl

  Skips-copied :
      (name : Text) (t : EType) (ref : List Text) (es : List Entry)
      → Skips a name t
      → add_loop new false ((record { name = name; e_type = t; ref = ref }) ∷ es)
        ≡ put_front (record { name = name; e_type = t; ref = ref }) (add_loop new false es)
  unfolding text_eq
  Skips-copied name t ref es h =
      add_loop_copies false (record { name = name; e_type = t; ref = ref }) es (differs name t h)
        (first name t h)
    where
      differs : (name : Text) (t : EType) → Skips a name t → text_eq name key ≡ false
      differs [] t h = refl
      differs (d ∷ ds) t h = ground arith

      first : (name : Text) (t : EType) → Skips a name t → first_after name key ≡ false
      first [] t h = refl
      first (d ∷ ds) t h = ground arith

  -- An entry that is passed over leaves the effect what it is behind it.
  module _ (name : Text) (t : EType) (ref : List Text) (es : List Entry) where
    abbrev e : Entry
    e = record { name = name; e_type = t; ref = ref }

    pub behind-Effect :
        (skips : Skips a name t) (fits : Fits name t) (after : After name es) (c : Change)
        → Effect a rest v apnd es c
        → Effect a rest v apnd (e ∷ es) (behind e c)
    unfolding look
    behind-Effect skips fits after unchanged (es', added, changed) = (
      e ∷ es',
      Skips-copied name t ref es skips ∙ rw added,
      later-IsChanged a rest v name t ref skips es fits after es' (v ∷ []) changed,
    )
    behind-Effect skips fits after (updated es') (refs, replaces, changed) =
        (refs, replaces, later-IsChanged a rest v name t ref skips es fits after es' refs changed)
    behind-Effect skips fits after (divided es' p new) c =
        later-IsDivided a rest v name t ref skips es fits after es' new p c
    behind-Effect skips fits after (descends n r) (found, parts, tail, q) =
        (round_skips a name t ref rest (look key es) skips ∙ found, parts, tail, q)
