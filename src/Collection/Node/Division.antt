-- ===== src/Collection/Node/Division.antt =====
-- The new manifest of a divided entry: the key's leaf and what the entry was.
use fair_os_dfs.Prelude.{
  ℕ, ◌≡◌, ◌≢◌, ◌<◌, inl, inr, refl, ◌∙◌, Bool, true, false, List, [], ◌∷◌, ◌++◌, arith, ltb, ◌==◌,
  if◌then◌else◌, Bool-cases, ltb→lt,
}
use fair_os_dfs.Prelude.Text.{Text, text_eq, has_prefix}
use fair_os_dfs.Collection.Entries.{
  EType, leaf_entry, intermediate_entry, Entry, new_leaf, two_entries, add_entry_sorted, add_loop,
}
use fair_os_dfs.Collection.Node.{
  Look, absent, value, child, entry_round, look, IsNode, Fits, round_alone,
}
use fair_os_dfs.Collection.Node.Prefix.{
  Diverge, text_eq-append, has_prefix-append_both, trim_prefix-append_both,
}

abbrev pub lift : Text → Look → Look
lift p absent = absent
lift p (value ref) = value ref
lift p (child name rest) = child (p ++ name) rest

-- Behind a prefix an entry says what it says without.
pub round-append :
    (c : ℕ) (p name : Text) (t : EType) (key : Text) (refs refs' : List Text)
    → Fits name t
    → (t ≡ leaf_entry → refs ≡ refs')
    → entry_round ((c ∷ p) ++ name) t refs ((c ∷ p) ++ key) absent
      ≡ lift (c ∷ p) (entry_round name t refs' key absent)
round-append c p name leaf_entry key refs refs' f same =
    round_alone ((c ∷ p) ++ name) leaf_entry refs ((c ∷ p) ++ key) tt
    ∙ rw (text_eq-append (c ∷ p) name key, round_alone name leaf_entry refs' key f, same refl)
        (lifted (text_eq name key))
  where
    lifted :
        (b : Bool)
        → (if b then value refs' else absent) ≡ lift (c ∷ p) (if b then value refs' else absent)
    lifted true = refl
    lifted false = refl
round-append c p name intermediate_entry key refs refs' f same =
    round_alone ((c ∷ p) ++ name) intermediate_entry refs ((c ∷ p) ++ key) tt
    ∙ elim (Bool-cases (has_prefix key name)) [
      | inl e ↦ rw (
        has_prefix-append_both (c ∷ p) key name,
        e,
        trim_prefix-append_both (c ∷ p) key name e,
        round_alone name intermediate_entry refs' key f,
        e,
      )
      | inr e ↦ rw (
        has_prefix-append_both (c ∷ p) key name,
        e,
        round_alone name intermediate_entry refs' key f,
        e,
      )
    ]

-- Two entries that begin differently: which one stands first does not matter.
module _ (x y : ℕ) (xs ys : Text) (v : Text) (r : List Text) where
  empty_second :
      (t : EType) (k : Text)
      → entry_round [] leaf_entry (v ∷ []) k (entry_round (x ∷ xs) t r k absent)
        ≡ (if text_eq [] k then value (v ∷ []) else entry_round (x ∷ xs) t r k absent)
  unfolding entry_round text_eq
  empty_second t k = refl

  empty_first :
      (k : Text)
      → entry_round [] leaf_entry r k (entry_round (y ∷ ys) leaf_entry (v ∷ []) k absent)
        ≡ (if text_eq (y ∷ ys) k then value (v ∷ []) else entry_round [] leaf_entry r k absent)
  unfolding entry_round text_eq
  empty_first [] = refl
  empty_first (a ∷ k) = ground arith

  apart_first :
      (t : EType) (k : Text)
      → x < y
      → entry_round (x ∷ xs) t r k (entry_round (y ∷ ys) leaf_entry (v ∷ []) k absent)
        ≡ (if text_eq (y ∷ ys) k then value (v ∷ []) else entry_round (x ∷ xs) t r k absent)
  unfolding entry_round text_eq has_prefix
  apart_first leaf_entry [] h = refl
  apart_first leaf_entry (a ∷ k) h = ground arith
  apart_first intermediate_entry [] h = refl
  apart_first intermediate_entry (a ∷ k) h = ground arith

  apart_second :
      (t : EType) (k : Text)
      → y < x
      → entry_round (y ∷ ys) leaf_entry (v ∷ []) k (entry_round (x ∷ xs) t r k absent)
        ≡ (if text_eq (y ∷ ys) k then value (v ∷ []) else entry_round (x ∷ xs) t r k absent)
  unfolding entry_round text_eq has_prefix
  apart_second leaf_entry [] h = refl
  apart_second leaf_entry (a ∷ k) h = ground arith
  apart_second intermediate_entry [] h = refl
  apart_second intermediate_entry (a ∷ k) h = ground arith

module _ (v : Text) where
  pub record IsPair (s1 : Text) (t : EType) (r : List Text) (s2 : Text) (es : List Entry)
      : Type 0 where
    pub node : IsNode es
    pub looks :
        (k : Text)
        → look k es ≡ (if text_eq s2 k then value (v ∷ []) else entry_round s1 t r k absent)

  pub two_entries-IsPair :
      (s1 s2 : Text) (t : EType) (r : List Text)
      → Fits s1 t
      → Diverge s1 s2
      → s1 ≢ s2
      → IsPair s1 t r s2
          (two_entries (new_leaf s2 (v ∷ [])) (record { name = s1; e_type = t; ref = r }))
  unfolding two_entries add_entry_sorted add_loop text_eq look
  two_entries-IsPair [] [] t r f d n = absurd (n refl)
  two_entries-IsPair [] (y ∷ ys) leaf_entry r f d n = record {
    node = (tt, tt, (tt, tt, tt));
    looks = λ k. empty_first 0 y [] ys v r k;
  }
  two_entries-IsPair [] (y ∷ ys) intermediate_entry r f d n = absurd f
  two_entries-IsPair (x ∷ xs) [] leaf_entry r f d n = record {
    node = (tt, tt, (tt, tt, tt));
    looks = λ k. empty_second x 0 xs [] v r leaf_entry k;
  }
  two_entries-IsPair (x ∷ xs) [] intermediate_entry r f d n = record {
    node = (tt, tt, (tt, tt, tt));
    looks = λ k. empty_second x 0 xs [] v r intermediate_entry k;
  }
  two_entries-IsPair (x ∷ xs) (y ∷ ys) leaf_entry r f d n = elim (Bool-cases (ltb x y)) [
    | inl e ↦
        let lt : x < y = ltb→lt x y e in
        let differ : (y == x) ≡ false = ground (arith, d) in
        rw (two_entries, add_entry_sorted, add_loop, e, text_eq, differ)
          (record {
            node = (tt, (lt, tt), (tt, tt, tt));
            looks = λ k. apart_first x y xs ys v r leaf_entry k lt;
          })
    | inr e ↦
        let lt : y < x = ground (arith, e, d) in
        let differ : (y == x) ≡ false = ground (arith, d) in
        rw (two_entries, add_entry_sorted, add_loop, e, text_eq, differ)
          (record {
            node = (tt, (lt, tt), (tt, tt, tt));
            looks = λ k. apart_second x y xs ys v r leaf_entry k lt;
          })
  ]
  two_entries-IsPair (x ∷ xs) (y ∷ ys) intermediate_entry r f d n = elim (Bool-cases (ltb x y)) [
    | inl e ↦
        let lt : x < y = ltb→lt x y e in
        let differ : (y == x) ≡ false = ground (arith, d) in
        rw (two_entries, add_entry_sorted, add_loop, e, text_eq, differ)
          (record {
            node = (tt, (lt, tt), (tt, tt, tt));
            looks = λ k. apart_first x y xs ys v r intermediate_entry k lt;
          })
    | inr e ↦
        let lt : y < x = ground (arith, e, d) in
        let differ : (y == x) ≡ false = ground (arith, d) in
        rw (two_entries, add_entry_sorted, add_loop, e, text_eq, differ)
          (record {
            node = (tt, (lt, tt), (tt, tt, tt));
            looks = λ k. apart_second x y xs ys v r intermediate_entry k lt;
          })
  ]
