-- ===== src/Collection/Tree/Divided.antt =====
-- What addOrUpdateStringEntry leaves of the tree behind a manifest, when it divides an entry of it.
use fair_os_dfs.Prelude.{
  ℕ, ◌≡◌, ◌⊎◌, inl, inr, refl, sym, ap, ◌∙◌, subst, true, false, List, [], ◌∷◌, ◌++◌, Option, some,
  arith, if◌then◌else◌, Bool-cases, append_assoc,
}
use fair_os_dfs.Prelude.Text.{
  Text, text_eq, text_eq_iff, has_prefix, has_prefix-append, trim_prefix, trim_prefix-append,
  append-trim_prefix,
}
use fair_os_dfs.Collection.Entries.{Entry}
use fair_os_dfs.Collection.Manifests.{IndexType, Manifest, Backend}
use fair_os_dfs.Collection.Manifests.Frames.{Kept}
use fair_os_dfs.Collection.Index.{divided_manifest}
use fair_os_dfs.Collection.Node.{Look, absent, value, child, IsNode, HasChild}
use fair_os_dfs.Collection.Node.Prefix.{text_eq-append}
use fair_os_dfs.Collection.Node.Here.{not_prefix_behind}
use fair_os_dfs.Collection.Node.Division.{lift}
use fair_os_dfs.Collection.Node.Loops.{found}
use fair_os_dfs.Collection.Node.Children.{found_child}
use fair_os_dfs.Collection.Tree.{
  Loads, Tree, Reads, reads_absent, reads_value, reads_child, Reads-cases, Below, kid-Kept,
  kid_reads, kids-Tree,
}
use fair_os_dfs.Collection.Tree.Names.{name_behind, name_before, outside_differs}
use fair_os_dfs.Collection.Tree.Entered.{Entered, child_named}

lift_absent : (p : Text) (l : Look) → lift p l ≡ absent → l ≡ absent
lift_absent p absent h = refl
lift_absent p (value refs) h = h
lift_absent p (child n r) h = ground (arith, h)

lift_value : (p : Text) (l : Look) (refs : List Text) → lift p l ≡ value refs → l ≡ value refs
lift_value p absent refs h = h
lift_value p (value had) refs h = h
lift_value p (child n r) refs h = ground (arith, h)

lift_child :
    (p : Text) (l : Look) (n r : Text)
    → lift p l ≡ child n r
    → (n0 : Text) × (l ≡ child n0 r) × (p ++ n0 ≡ n)
lift_child p absent n r h = ground (arith, h)
lift_child p (value had) n r h = ground (arith, h)
lift_child p (child n0 r0) n r h =
    let rest : r0 ≡ r = ground (arith, h) in
    let name : p ++ n0 ≡ n = ground (arith, h) in (n0, rw rest, name)

-- What the loop says of the division (Node/Loops).
pub record Division (es es' new : List Entry) (p suffix key v : Text) : Type 0 where
  pub named : text_eq p [] ≡ false
  pub apart : (n u : Text) → HasChild n es → n ++ u ≡ p → ⊥
  pub parts : p ++ suffix ≡ key
  pub node : IsNode es'
  pub new_node : IsNode new
  pub goes :
      (k : Text) → found k es' ≡ (if has_prefix k p then child p (trim_prefix k p) else found k es)
  pub finds : found suffix new ≡ value (v ∷ [])
  pub others : (k : Text) → text_eq suffix k ≡ false → found (p ++ k) es ≡ lift p (found k new)

module _ {S : Type 0} {D : Type 0} {E : Type 0} (b : Backend S D E) (s s1 s' : S) (m : Manifest)
    (idx_type : IndexType) (now count : ℕ) (es' new : List Entry) (p suffix key v : Text)
    (t : Tree b s m) (division : Division m.entries es' new p suffix key v)
    (kept1 : (x : Text) → text_eq (m.name ++ p) x ≡ false → Kept b s s1 x)
    (kept2 : (x : Text) → text_eq m.name x ≡ false → Kept b s1 s' x) where
  abbrev d : Manifest
  d = divided_manifest b m p idx_type now new

  abbrev m' : Manifest
  m' = record m { entries = es'; count = count }

  both-Kept :
      (x : Text) → text_eq m.name x ≡ false → text_eq (m.name ++ p) x ≡ false → Kept b s s' x
  both-Kept x q1 q2 c l = kept2 x q1 c (kept1 x q2 c l)

  -- The names behind the children that there were are kept.
  old-Below : (k n r : Text) → found k m.entries ≡ child n r → Below b s s' (m.name ++ n)
  old-Below k n r q u =
      both-Kept ((m.name ++ n) ++ u) (name_behind m.name n u (child_named b s m k n r t q)) (
        ap (text_eq (m.name ++ p)) (append_assoc m.name n u)
        ∙ text_eq-append m.name p (n ++ u)
        ∙ differs (Bool-cases (text_eq p (n ++ u))))
    where
      differs :
          (text_eq p (n ++ u) ≡ true) ⊎ (text_eq p (n ++ u) ≡ false) → text_eq p (n ++ u) ≡ false
      differs (inr e) = e
      differs (inl e) = absurd (
          division.apart n u (found_child k n r m.entries q).0 (sym ((text_eq_iff p (n ++ u)).0 e)))

  -- A rest of a key that is not the key's.
  rest_other : (k n r : Text) → found k new ≡ child n r → text_eq suffix k ≡ false
  rest_other k n r q = elim (Bool-cases (text_eq suffix k)) [
    | inr e ↦ e
    | inl e ↦
        let same = (text_eq_iff suffix k).0 e in
        let had : value (v ∷ []) ≡ child n r =
          sym division.finds ∙ ap (λ x. found x new) same ∙ q in
        ground (arith, had)
  ]

  new_kid :
      (k n r : Text)
      → found k new ≡ child n r
      → (c : Manifest) × Loads b s' (d.name ++ n) c × (c.name ≡ d.name ++ n) × Tree b s' c
  new_kid k n r q =
      let was : found (p ++ k) m.entries ≡ child (p ++ n) r =
        division.others k (rest_other k n r q) ∙ ap (lift p) q in
      let (c, l, named, below) =
        kid-Kept b s s' m (p ++ k) (p ++ n) r t was (old-Below (p ++ k) (p ++ n) r was) in
      let path : m.name ++ (p ++ n) ≡ d.name ++ n = sym (append_assoc m.name p n) in
      (c, subst (λ x. Loads b s' x c) path l, named ∙ path, below)

  pub new-Tree : Tree b s' d
  new-Tree = kids-Tree b s' d division.new_node new_kid

  goes_under : (k : Text) → has_prefix k p ≡ true → found k es' ≡ child p (trim_prefix k p)
  goes_under k q = division.goes k ∙ rw q

  goes_past : (k : Text) → has_prefix k p ≡ false → found k es' ≡ found k m.entries
  goes_past k q = division.goes k ∙ rw q

  module _ (loads_d : Loads b s1 (m.name ++ p) d) where
    there : Loads b s' (m.name ++ p) d
    there = kept2 (m.name ++ p) (name_before m.name p division.named) d loads_d

    kids :
        (k n r : Text)
        → found k es' ≡ child n r
        → (c : Manifest) × Loads b s' (m.name ++ n) c × (c.name ≡ m.name ++ n) × Tree b s' c
    kids k n r q = elim (Bool-cases (has_prefix k p)) [
      | inl e ↦
          let made : child p (trim_prefix k p) ≡ child n r = sym (goes_under k e) ∙ q in
          let same : p ≡ n = ground (arith, made) in
          (
            d,
            subst (λ x. Loads b s' (m.name ++ x) d) same there,
            ap (λ x. m.name ++ x) same,
            new-Tree,
          )
      | inr e ↦
          let was = sym (goes_past k e) ∙ q in kid-Kept b s s' m k n r t was (old-Below k n r was)
    ]

    -- A key behind the prefix is read in the new manifest.
    under_old :
        (k : Text) (res : Option (List Text))
        → text_eq suffix k ≡ false
        → Reads b s m (p ++ k) res
        → Reads b s' d k res
    under_old k res differ reads = elim (Reads-cases b s m (p ++ k) res reads) [
      | inl (q, e) ↦
          subst (Reads b s' d k) (sym e)
            (reads_absent (lift_absent p (found k new) (sym (division.others k differ) ∙ q)))
      | inr (inl (refs, q, e)) ↦
          subst (Reads b s' d k) (sym e) (
            reads_value refs (lift_value p (found k new) refs (sym (division.others k differ) ∙ q)))
      | inr (inr (n, r, c, q, l, deeper)) ↦
          let (n0, q0, name) =
            lift_child p (found k new) n r (sym (division.others k differ) ∙ q) in
          let (l', reads') =
            kid_reads b s s' m c (p ++ k) n r res t q l (old-Below (p ++ k) n r q) deeper in
          let path : m.name ++ n ≡ d.name ++ n0 =
            ap (λ x. m.name ++ x) (sym name) ∙ sym (append_assoc m.name p n0) in
          reads_child n0 r c q0 (subst (λ x. Loads b s' x c) path l') reads'
    ]

    past_old :
        (k : Text) (res : Option (List Text))
        → has_prefix k p ≡ false
        → Reads b s m k res
        → Reads b s' m' k res
    past_old k res past reads = elim (Reads-cases b s m k res reads) [
      | inl (q, e) ↦ subst (Reads b s' m' k) (sym e) (reads_absent (goes_past k past ∙ q))
      | inr (inl (refs, q, e)) ↦
          subst (Reads b s' m' k) (sym e) (reads_value refs (goes_past k past ∙ q))
      | inr (inr (n, r, c, q, l, deeper)) ↦
          let (l', reads') = kid_reads b s s' m c k n r res t q l (old-Below k n r q) deeper in
          reads_child n r c (goes_past k past ∙ q) l' reads'
    ]

    old_reads :
        (k : Text) (res : Option (List Text))
        → text_eq key k ≡ false
        → Reads b s m k res
        → Reads b s' m' k res
    old_reads k res differ reads = elim (Bool-cases (has_prefix k p)) [
      | inr past ↦ past_old k res past reads
      | inl under ↦
          let whole : p ++ trim_prefix k p ≡ k = append-trim_prefix k p under in
          let apart : text_eq suffix (trim_prefix k p) ≡ false =
            sym (text_eq-append p suffix (trim_prefix k p))
            ∙ ap (λ x. text_eq x (p ++ trim_prefix k p)) division.parts
            ∙ ap (text_eq key) whole
            ∙ differ in
          reads_child p (trim_prefix k p) d (goes_under k under) there (
            under_old (trim_prefix k p) res apart
              (subst (λ x. Reads b s m x res) (sym whole) reads))
    ]

    new_read : Reads b s' m' key (some (v ∷ []))
    new_read =
        subst (λ x. Reads b s' m' x (some (v ∷ []))) division.parts
          (reads_child p suffix d
            (goes_under (p ++ suffix) (has_prefix-append p suffix)
              ∙ ap (child p) (trim_prefix-append p suffix))
            there (reads_value (v ∷ []) division.finds))

    pub divided-Entered : Loads b s' m.name m' → Entered b s s' m key (v ∷ [])
    divided-Entered loads = record {
      after = m';
      same_name = refl;
      loads = loads;
      valid = kids-Tree b s' m' division.node kids;
      new = new_read;
      old = old_reads;
      keeps = λ n outside.
          both-Kept n (outside_differs n m.name outside)
            (outside_differs n (m.name ++ p) (not_prefix_behind m.name p n outside));
    }
