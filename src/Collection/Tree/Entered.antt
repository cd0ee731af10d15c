-- ===== src/Collection/Tree/Entered.antt =====
-- What addOrUpdateStringEntry leaves of the tree behind a manifest, when it ends there.
use fair_os_dfs.Prelude.{
  ℕ, ◌≡◌, inl, inr, refl, sym, ◌∙◌, subst, false, List, [], ◌++◌, Option, some, arith, Bool-cases,
}
use fair_os_dfs.Prelude.Text.{Text, text_eq, text_eq_refl, has_prefix}
use fair_os_dfs.Collection.Entries.{Entry}
use fair_os_dfs.Collection.Manifests.{Manifest, Backend}
use fair_os_dfs.Collection.Manifests.Frames.{Kept}
use fair_os_dfs.Collection.Node.{value, child}
use fair_os_dfs.Collection.Node.Loops.{found, Replaced}
use fair_os_dfs.Collection.Node.Children.{found_child, HasChild-named}
use fair_os_dfs.Collection.Tree.{
  Loads, Tree, Reads, reads_absent, reads_value, reads_child, Tree-IsNode, Reads-cases, Below,
  kid-Kept, kid_reads, kids-Tree,
}
use fair_os_dfs.Collection.Tree.Names.{name_behind, outside_differs}

module _ {S : Type 0} {D : Type 0} {E : Type 0} (b : Backend S D E) where
  -- The manifest is another one, whose tree has the references for the key and says what the tree
  -- before said of every other key; manifests of names outside are kept.
  pub record Entered (s s' : S) (m : Manifest) (key : Text) (refs : List Text) : Type 0 where
    pub after : Manifest
    pub same_name : after.name ≡ m.name
    pub loads : Loads b s' m.name after
    pub valid : Tree b s' after
    pub new : Reads b s' after key (some refs)
    pub old :
        (k : Text) (res : Option (List Text))
        → text_eq key k ≡ false
        → Reads b s m k res
        → Reads b s' after k res
    pub keeps : (n : Text) → has_prefix n m.name ≡ false → Kept b s s' n

  -- A child's name has a byte.
  pub child_named :
      (s : S) (m : Manifest) (k n r : Text)
      → Tree b s m
      → found k m.entries ≡ child n r
      → text_eq n [] ≡ false
  child_named s m k n r t q =
      HasChild-named n m.entries (Tree-IsNode b s m t) (found_child k n r m.entries q).0

  -- Where the manifest alone is written, the names behind a child's are kept.
  pub only-Below :
      (s s' : S) (m : Manifest) (k n r : Text)
      → Tree b s m
      → ((x : Text) → text_eq m.name x ≡ false → Kept b s s' x)
      → found k m.entries ≡ child n r
      → Below b s s' (m.name ++ n)
  only-Below s s' m k n r t kept q u =
      kept ((m.name ++ n) ++ u) (name_behind m.name n u (child_named s m k n r t q))

  module _ (s s' : S) (m : Manifest) (es' : List Entry) (count : ℕ) (key : Text) (refs : List Text)
      (t : Tree b s m) (replaced : Replaced key refs m.entries es')
      (kept : (x : Text) → text_eq m.name x ≡ false → Kept b s s' x) where
    abbrev m' : Manifest
    m' = record m { entries = es'; count = count }

    was_found : (k : Text) → text_eq key k ≡ false → found k es' ≡ found k m.entries
    was_found k differ = replaced.1 k ∙ rw differ

    other : (k n r : Text) → found k es' ≡ child n r → text_eq key k ≡ false
    other k n r q = elim (Bool-cases (text_eq key k)) [
      | inr e ↦ e
      | inl e ↦
          let had : value refs ≡ child n r = sym (replaced.1 k ∙ rw e) ∙ q in ground (arith, had)
    ]

    child_before : (k n r : Text) → found k es' ≡ child n r → found k m.entries ≡ child n r
    child_before k n r q = sym (was_found k (other k n r q)) ∙ q

    replaced_old :
        (k : Text) (res : Option (List Text))
        → text_eq key k ≡ false
        → Reads b s m k res
        → Reads b s' m' k res
    replaced_old k res differ reads = elim (Reads-cases b s m k res reads) [
      | inl (q, e) ↦ subst (Reads b s' m' k) (sym e) (reads_absent (was_found k differ ∙ q))
      | inr (inl (had, q, e)) ↦
          subst (Reads b s' m' k) (sym e) (reads_value had (was_found k differ ∙ q))
      | inr (inr (n, r, c, q, l, deeper)) ↦
          let (l', reads') =
            kid_reads b s s' m c k n r res t q l (only-Below s s' m k n r t kept q) deeper in
          reads_child n r c (was_found k differ ∙ q) l' reads'
    ]

    pub replaced-Entered : Loads b s' m.name m' → Entered s s' m key refs
    replaced-Entered loads = record {
      after = m';
      same_name = refl;
      loads = loads;
      valid = kids-Tree b s' m' replaced.0 (λ k n r q.
          kid-Kept b s s' m k n r t (child_before k n r q)
            (only-Below s s' m k n r t kept (child_before k n r q)));
      new = reads_value refs (replaced.1 key ∙ rw (text_eq_refl key));
      old = replaced_old;
      keeps = λ n outside. kept n (outside_differs n m.name outside);
    }
