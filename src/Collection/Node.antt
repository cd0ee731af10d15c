-- ===== src/Collection/Node.antt =====
-- What the entries of one manifest say of a key, and when they are in order.
pub mod Prefix
pub mod Division
pub mod Effects
pub mod Here
pub mod Changes
pub mod Matched
pub mod Entered
pub mod Loops
pub mod Removed
pub mod Children
pub mod Utf8
use fair_os_dfs.Prelude.{
  ℕ, zero, suc, ◌+◌, ◌≤◌, ◌<◌, ◌≡◌, ◌≢◌, ◌⊎◌, inl, inr, refl, sym, ap, ◌∙◌, subst, Bool, true,
  false, not, ◌&&◌, List, [], ◌∷◌, ◌++◌, arith, ltb, ◌==◌, if◌then◌else◌, Bool-cases, ==_iff,
  ==_refl,
}
use fair_os_dfs.Prelude.Text.{
  Text, text_eq, text_eq_iff, text_eq_refl, has_prefix, strip, trim_prefix,
}
use fair_os_dfs.Collection.Entries.{
  EType, leaf_entry, intermediate_entry, Entry, is_leaf, too_far, Scan, missing, here, branch, scan,
}

-- Nothing, the references of a leaf, or a child and the rest of the key.
pub data Look : Type 0 where
  absent : Look
  value : List Text → Look
  child : Text → Text → Look

-- What one entry says of a key, with what the later ones say.
unfoldable pub entry_round : Text → EType → List Text → Text → Look → Look
entry_round name leaf_entry ref key later =
    if too_far name key then absent else if text_eq name key then value ref else later
entry_round name intermediate_entry ref key later =
    if too_far name key
    then absent
    else if has_prefix key name
    then child name (trim_prefix key name)
    else later

unfoldable pub look : Text → List Entry → Look
unfolding entry_round
look key [] = absent
look key (e ∷ es) = entry_round e.name e.e_type e.ref key (look key es)

abbrev pub look_of : Scan → Look
look_of missing = absent
look_of (here i e) = value e.ref
look_of (branch name rest) = child name rest

pub scan-look : (i : ℕ) (key : Text) (es : List Entry) → look_of (scan i key es) ≡ look key es
unfolding scan look entry_round
scan-look i key [] = refl
scan-look i key (e ∷ es) = step i key e.name e.e_type e.ref es (scan-look (suc i) key es)
  where
    step :
        (i : ℕ) (key name : Text) (t : EType) (ref : List Text) (es : List Entry)
        → look_of (scan (suc i) key es) ≡ look key es
        → look_of (scan i key ((record { name = name; e_type = t; ref = ref }) ∷ es))
          ≡ entry_round name t ref key (look key es)
    step i key name leaf_entry ref es ih = ground (arith, ih)
    step i key name intermediate_entry ref es ih = ground (arith, ih)

abbrev pub HeadAbove : ℕ → Text → Type 0
HeadAbove c [] = ⊥
HeadAbove c (a ∷ as') = c < a

-- Every name begins with a byte above `c`.
abbrev pub Above : ℕ → List Entry → Type 0
Above c [] = Unit
Above c (e ∷ es) = HeadAbove c e.name × Above c es

abbrev pub After : Text → List Entry → Type 0
After [] es = Unit
After (c ∷ cs) es = Above c es

abbrev pub Fits : Text → EType → Type 0
Fits [] leaf_entry = Unit
Fits [] intermediate_entry = ⊥
Fits (c ∷ cs) t = Unit

-- The names that are not empty begin with rising bytes, after those that are; an intermediate entry
-- has a name.
abbrev pub IsNode : List Entry → Type 0
IsNode [] = Unit
IsNode (e ∷ es) = Fits e.name e.e_type × After e.name es × IsNode es

-- A key that begins below all the names is absent, and so is the empty key.
pub Above-absent :
    (c : ℕ) (es : List Entry)
    → Above c es
    → (look [] es ≡ absent) × ((a : ℕ) (rest : Text) → a ≤ c → look (a ∷ rest) es ≡ absent)
unfolding look entry_round
Above-absent c [] h = (refl, λ a rest le. refl)
Above-absent c (e ∷ es) h = step c e.name e.e_type e.ref h.0 (look [] es) (λ key. look key es)
  where
    step :
        (c : ℕ) (name : Text) (t : EType) (ref : List Text)
        → HeadAbove c name
        → (l : Look) (m : Text → Look)
        → (entry_round name t ref [] l ≡ absent)
          × ((a : ℕ) (rest : Text)
              → a ≤ c
              → entry_round name t ref (a ∷ rest) (m (a ∷ rest)) ≡ absent)
    step c [] t ref h l m = absurd h
    step c (d ∷ ds) leaf_entry ref h l m = (refl, λ a rest le. ground arith)
    step c (d ∷ ds) intermediate_entry ref h l m = (refl, λ a rest le. ground arith)

-- An entry that no key beginning with `a` stops at.
abbrev pub Skips : ℕ → Text → EType → Type 0
Skips a [] leaf_entry = Unit
Skips a [] intermediate_entry = ⊥
Skips a (d ∷ ds) t = d < a

pub round_skips :
    (a : ℕ) (name : Text) (t : EType) (ref : List Text) (rest : Text) (later : Look)
    → Skips a name t
    → entry_round name t ref (a ∷ rest) later ≡ later
unfolding entry_round text_eq has_prefix
round_skips a [] leaf_entry ref rest later h = refl
round_skips a [] intermediate_entry ref rest later h = absurd h
round_skips a (d ∷ ds) leaf_entry ref rest later h = ground arith
round_skips a (d ∷ ds) intermediate_entry ref rest later h = ground arith

-- With nothing behind it an entry's order does not matter.
pub round_alone :
    (name : Text) (t : EType) (ref : List Text) (key : Text)
    → Fits name t
    → entry_round name t ref key absent ≡ elim t [
      | leaf_entry ↦ if text_eq name key then value ref else absent
      | intermediate_entry ↦
          if has_prefix key name then child name (trim_prefix key name) else absent
    ]
unfolding entry_round text_eq has_prefix
round_alone [] leaf_entry ref key f = refl
round_alone [] intermediate_entry ref key f = absurd f
round_alone (d ∷ ds) leaf_entry ref [] f = refl
round_alone (d ∷ ds) intermediate_entry ref [] f = refl
round_alone (d ∷ ds) leaf_entry ref (a ∷ rest) f = ground arith
round_alone (d ∷ ds) intermediate_entry ref (a ∷ rest) f = ground arith

-- An intermediate entry of that name is among the entries.
abbrev pub HasChild : Text → List Entry → Type 0
HasChild n [] = ⊥
HasChild n (e ∷ es) = ((e.name ≡ n) × (e.e_type ≡ intermediate_entry)) ⊎ HasChild n es

pub HasChild-Above :
    (c : ℕ) (n : Text) (es : List Entry) → HasChild n es → Above c es → HeadAbove c n
HasChild-Above c n (e ∷ es) (inl (q, t)) h = subst (HeadAbove c) q h.0
HasChild-Above c n (e ∷ es) (inr later) h = HasChild-Above c n es later h.1
HasChild-Above c n [] has h = absurd has
