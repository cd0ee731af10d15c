-- ===== src/Collection/Node/Here.antt =====
-- A round of addOrUpdateStringEntry at the entry whose name begins with the byte of the key.
use fair_os_dfs.Prelude.{
  ℕ, ◌≡◌, ◌≢◌, inl, inr, refl, sym, ap, ◌∙◌, true, false, List, [], ◌∷◌, ◌++◌, length,
  length-append, suc, ◌+◌, arith, ltb, if◌then◌else◌, Bool-cases,
}
use fair_os_dfs.Prelude.Text.{
  Text, text_eq, text_eq_iff, text_eq_refl, has_prefix, has_prefix-append, trim_prefix,
}
use fair_os_dfs.Collection.Entries.{
  EType, leaf_entry, intermediate_entry, Entry, new_leaf, new_intermediate, two_entries,
}
use fair_os_dfs.Collection.Node.{
  Look, child, entry_round, look, Above, Fits, IsNode, HasChild-Above, HeadAbove, Above-absent,
}
use fair_os_dfs.Collection.Node.Prefix.{Diverge, has_prefix_longer}
use fair_os_dfs.Collection.Node.Division.{round-append, two_entries-IsPair}
use fair_os_dfs.Collection.Node.Effects.{IsDivided}

not_equal_behind : (p s k : Text) → has_prefix k p ≡ false → text_eq (p ++ s) k ≡ false
not_equal_behind p s k h = elim (Bool-cases (text_eq (p ++ s) k)) [
  | inr e ↦ e
  | inl e ↦
      let q : p ++ s ≡ k = (text_eq_iff (p ++ s) k).0 e in
      let long : has_prefix k p ≡ true = sym (ap (λ x. has_prefix x p) q) ∙ has_prefix-append p s in
      ground (arith, h, long)
]

pub not_prefix_behind : (p s k : Text) → has_prefix k p ≡ false → has_prefix k (p ++ s) ≡ false
not_prefix_behind p s k h = elim (Bool-cases (has_prefix k (p ++ s))) [
  | inr e ↦ e
  | inl e ↦ let long : has_prefix k p ≡ true = has_prefix_longer k p s e in ground (arith, h, long)
]

-- No child's name goes into the prefix of a divided entry.
short_apart :
    (pt s u n : Text) (a : ℕ) (t : EType)
    → Fits s t
    → t ≡ intermediate_entry
    → (a ∷ pt) ++ s ≡ n
    → n ++ u ≡ a ∷ pt
    → ⊥
short_apart pt [] u n a leaf_entry fits i q h = ground (arith, i)
short_apart pt [] u n a intermediate_entry fits i q h = fits
short_apart pt (x ∷ s) u n a t fits i q h =
    let whole : length n + length u ≡ suc (length pt) = sym (length-append n u) ∙ ap length h in
    let longer : suc (length pt + suc (length s)) ≡ length n =
      ap suc (sym (length-append pt (x ∷ s))) ∙ ap length q in
    omega (arith, whole, longer)

above_apart : (a : ℕ) (pt u n : Text) → HeadAbove a n → n ++ u ≡ a ∷ pt → ⊥
above_apart a pt u [] above h = above
above_apart a pt u (d ∷ ds) above h = ground (arith, h)

module _ (a : ℕ) (ref : List Text) where
  -- An entry that begins with the prefix answers nothing that the prefix does not cover.
  round_divided :
      (pt s : Text) (t : EType) (k : Text) (later : Look)
      → entry_round (a ∷ pt) intermediate_entry ref k later ≡ (
          if has_prefix k (a ∷ pt)
          then child (a ∷ pt) (trim_prefix k (a ∷ pt))
          else entry_round ((a ∷ pt) ++ s) t ref k later)
  unfolding entry_round has_prefix
  round_divided pt s leaf_entry [] later = refl
  round_divided pt s intermediate_entry [] later = refl
  round_divided pt s leaf_entry (b ∷ k) later = elim (Bool-cases (has_prefix (b ∷ k) (a ∷ pt))) [
    | inl e ↦ let low : ltb b a ≡ false = ground (arith, e) in rw (e, low)
    | inr e ↦ rw (e, not_equal_behind (a ∷ pt) s (b ∷ k) e)
  ]
  round_divided pt s intermediate_entry (b ∷ k) later =
      elim (Bool-cases (has_prefix (b ∷ k) (a ∷ pt))) [
        | inl e ↦ let low : ltb b a ≡ false = ground (arith, e) in rw (e, low)
        | inr e ↦ rw (e, not_prefix_behind (a ∷ pt) s (b ∷ k) e)
      ]

  module _ (rest v : Text) where
    pub divide-IsDivided :
        (pt s1 s2 : Text) (t : EType) (ref' : List Text) (es : List Entry)
        → Fits s1 t
        → Diverge s1 s2
        → s1 ≢ s2
        → (t ≡ leaf_entry → ref ≡ ref')
        → pt ++ s2 ≡ rest
        → Above a es
        → IsNode es
        → IsDivided a rest v
            ((record { name = (a ∷ pt) ++ s1; e_type = t; ref = ref }) ∷ es)
            (new_intermediate (a ∷ pt) ref ∷ es)
            (a ∷ pt)
            (two_entries (new_leaf s2 (v ∷ [])) (record { name = s1; e_type = t; ref = ref' }))
    unfolding look
    divide-IsDivided pt s1 s2 t ref' es fits diverge differ same parts above node =
        let pair = two_entries-IsPair v s1 s2 t ref' fits diverge differ in
        record {
          node = (tt, above, node);
          above = λ d lt h. (lt, h.1);
          new_node = pair.node;
          suffix = s2;
          prefix_tail = pt;
          prefix = refl;
          key_parts = ap (λ x. a ∷ x) parts;
          looks = λ k. round_divided pt s1 t k (look k es);
          looks_new = pair.looks s2 ∙ rw (text_eq_refl s2);
          apart = λ n u has q. elim has [
            | inl (e, i) ↦ short_apart pt s1 u n a t fits i e q
            | inr later ↦ above_apart a pt u n (HasChild-Above a n es later above) q
          ];
          looks_old = λ k q.
              rw ((Above-absent a es above).1 a (pt ++ k) (ground arith), pair.looks k, q)
                (round-append a pt s1 t k ref ref' fits same);
        }
