-- ===== src/Collection/Node/Effects.antt =====
-- What a round of addOrUpdateStringEntry makes of the entries of one manifest, for a key that is not
-- empty.
use fair_os_dfs.Prelude.{
  ℕ, ◌≡◌, ◌<◌, ◌⊎◌, inl, inr, sym, ap, ◌∙◌, Bool, true, false, List, [], ◌∷◌, ◌++◌, some, arith,
  ltb, ◌==◌, if◌then◌else◌, Bool-cases, ltb→lt,
}
use fair_os_dfs.Prelude.Text.{Text, text_eq, text_eq_iff, has_prefix, trim_prefix}
use fair_os_dfs.Collection.Entries.{
  EType, leaf_entry, intermediate_entry, Entry, new_leaf, add_loop, Change, unchanged, updated,
  divided, descends,
}
use fair_os_dfs.Collection.Node.{
  Look, absent, value, child, entry_round, look, Above, After, Fits, IsNode, HasChild, Skips,
  round_skips, Above-absent,
}
use fair_os_dfs.Collection.Node.Division.{lift}

module _ (a : ℕ) (rest : Text) (v : Text) where
  abbrev key : Text
  key = a ∷ rest

  -- The entries after one of them was added or changed: only the key is answered differently.
  pub record IsChanged (es es' : List Entry) (refs : List Text) : Type 0 where
    pub node : IsNode es'
    pub above : (d : ℕ) → d < a → Above d es → Above d es'
    pub looks : (k : Text) → look k es' ≡ (if text_eq key k then value refs else look k es)

  -- The entries after one of them was divided: behind the prefix the new manifest answers, which
  -- differs for the key only.
  pub record IsDivided (es es' : List Entry) (p : Text) (new : List Entry) : Type 0 where
    pub node : IsNode es'
    pub above : (d : ℕ) → d < a → Above d es → Above d es'
    pub new_node : IsNode new
    pub suffix : Text
    pub prefix_tail : Text
    pub prefix : p ≡ a ∷ prefix_tail
    pub key_parts : p ++ suffix ≡ key
    pub looks :
        (k : Text) → look k es' ≡ (if has_prefix k p then child p (trim_prefix k p) else look k es)
    pub looks_new : look suffix new ≡ value (v ∷ [])
    pub looks_old : (k : Text) → text_eq suffix k ≡ false → look (p ++ k) es ≡ lift p (look k new)
    pub apart : (n u : Text) → HasChild n es → n ++ u ≡ p → ⊥

  abbrev pub Effect : Bool → List Entry → Change → Type 0
  Effect apnd es unchanged =
      (es' : List Entry) × (add_loop (new_leaf key (v ∷ [])) false es ≡ some es')
      × IsChanged es es' (v ∷ [])
  Effect apnd es (updated es') =
      (refs : List Text) × (apnd ≡ false → refs ≡ v ∷ []) × IsChanged es es' refs
  Effect apnd es (divided es' p new) = IsDivided es es' p new
  Effect apnd es (descends n r) =
      (look key es ≡ child n r) × (n ++ r ≡ key) × (tail : Text) × (n ≡ a ∷ tail)

  later_stays :
      (name : Text) (t : EType) (es es' : List Entry)
      → Skips a name t
      → ((d : ℕ) → d < a → Above d es → Above d es')
      → After name es
      → After name es'
  later_stays [] t es es' skips above after = tt
  later_stays (d ∷ ds) t es es' skips above after = above d skips after

  skips_apart :
      (name : Text) (t : EType) (u tail : Text)
      → Skips a name t
      → t ≡ intermediate_entry
      → name ++ u ≡ a ∷ tail
      → ⊥
  skips_apart [] leaf_entry u tail skips q h = ground (arith, q)
  skips_apart [] intermediate_entry u tail skips q h = skips
  skips_apart (d ∷ ds) t u tail skips q h = ground (arith, h)

  child_apart :
      (name : Text) (t : EType) (es : List Entry) (p tail n u : Text)
      → Skips a name t
      → ((n u : Text) → HasChild n es → n ++ u ≡ p → ⊥)
      → p ≡ a ∷ tail
      → ((name ≡ n) × (t ≡ intermediate_entry)) ⊎ HasChild n es
      → n ++ u ≡ p
      → ⊥
  child_apart name t es p tail n u skips apart q (inr later) h = apart n u later h
  child_apart name t es p tail n u skips apart q (inl (e, i)) h =
      skips_apart name t u tail skips i (ap (λ x. x ++ u) e ∙ h ∙ q)

  module _ (name : Text) (t : EType) (ref : List Text) (skips : Skips a name t) where
    skips_key : (k : Text) (l : Look) → text_eq key k ≡ true → entry_round name t ref k l ≡ l
    skips_key k l e = rw (sym ((text_eq_iff key k).0 e)) (round_skips a name t ref rest l skips)

    skips_prefix :
        (k tail : Text) (l : Look) → has_prefix k (a ∷ tail) ≡ true → entry_round name t ref k l ≡ l
    unfolding has_prefix
    skips_prefix [] tail l e = ground (arith, e)
    skips_prefix (y ∷ k) tail l e =
        let same : y ≡ a = ground (arith, e) in rw same (round_skips a name t ref k l skips)

    skips_under :
        (p tail k : Text) (l : Look)
        → p ≡ a ∷ tail
        → has_prefix k p ≡ true
        → entry_round name t ref k l ≡ l
    skips_under p tail k l q e = skips_prefix k tail l (sym (ap (λ x. has_prefix k x) q) ∙ e)

    skips_behind :
        (p tail k : Text) (l : Look) → p ≡ a ∷ tail → entry_round name t ref (p ++ k) l ≡ l
    skips_behind p tail k l q = rw q (round_skips a name t ref (tail ++ k) l skips)

    module _ (es : List Entry) (fits : Fits name t) (after : After name es) where
      abbrev e : Entry
      e = record { name = name; e_type = t; ref = ref }

      pub later-IsChanged :
          (es' : List Entry) (refs : List Text)
          → IsChanged es es' refs
          → IsChanged (e ∷ es) (e ∷ es') refs
      unfolding look
      later-IsChanged es' refs c = record {
        node = (fits, later_stays name t es es' skips c.above after, c.node);
        above = λ d lt h. (h.0, c.above d lt h.1);
        looks = λ k. elim (Bool-cases (text_eq key k)) [
          | inl q ↦ rw (c.looks k, q, skips_key k (value refs) q)
          | inr q ↦ rw (c.looks k, q)
        ];
      }

      pub later-IsDivided :
          (es' new : List Entry) (p : Text)
          → IsDivided es es' p new
          → IsDivided (e ∷ es) (e ∷ es') p new
      unfolding look
      later-IsDivided es' new p c = record {
        node = (fits, later_stays name t es es' skips c.above after, c.node);
        above = λ d lt h. (h.0, c.above d lt h.1);
        new_node = c.new_node;
        suffix = c.suffix;
        prefix_tail = c.prefix_tail;
        prefix = c.prefix;
        key_parts = c.key_parts;
        looks = λ k. elim (Bool-cases (has_prefix k p)) [
          | inl q ↦
              rw
                (c.looks k, q, skips_under p c.prefix_tail k (child p (trim_prefix k p)) c.prefix q)
          | inr q ↦ rw (c.looks k, q)
        ];
        looks_new = c.looks_new;
        apart = λ n u has h. child_apart name t es p c.prefix_tail n u skips c.apart c.prefix has h;
        looks_old =
            λ k q. skips_behind p c.prefix_tail k (look (p ++ k) es) c.prefix ∙ c.looks_old k q;
      }

  front_looks :
      (es : List Entry)
      → Above a es
      → (k : Text)
      → look k (new_leaf key (v ∷ []) ∷ es) ≡ (if text_eq key k then value (v ∷ []) else look k es)
  unfolding look entry_round text_eq
  front_looks es above [] = sym (Above-absent a es above).0
  front_looks es above (b ∷ bs) = elim (Bool-cases (ltb b a)) [
    | inl q ↦
        let lt : b < a = ltb→lt b a q in
        let differ : (a == b) ≡ false = ground arith in
        let none_there : look (b ∷ bs) es ≡ absent =
          (Above-absent a es above).1 b bs (ground arith) in
        rw (q, differ, none_there)
    | inr q ↦ rw q
  ]

  -- Above all the entries the key's leaf goes in front.
  pub front-IsChanged :
      (es : List Entry)
      → Above a es
      → IsNode es
      → IsChanged es (new_leaf key (v ∷ []) ∷ es) (v ∷ [])
  unfolding look entry_round text_eq
  front-IsChanged es above node = record {
    node = (tt, above, node);
    above = λ d lt h. (lt, h);
    looks = front_looks es above;
  }
