-- ===== src/Collection/Tree/Descended.antt =====
-- What addOrUpdateStringEntry leaves of the tree behind a manifest, when it goes on in a child.
use fair_os_dfs.Prelude.{◌≡◌, ◌⊎◌, inl, inr, refl, sym, ap, ◌∙◌, subst, false, List, ◌++◌, Option}
use fair_os_dfs.Prelude.Result.{ok_injective}
use fair_os_dfs.Prelude.Text.{Text, text_eq, has_prefix}
use fair_os_dfs.Collection.Manifests.{Manifest, Backend, load_manifest}
use fair_os_dfs.Collection.Manifests.Frames.{Kept}
use fair_os_dfs.Collection.Node.{child}
use fair_os_dfs.Collection.Node.Prefix.{text_eq-append}
use fair_os_dfs.Collection.Node.Here.{not_prefix_behind}
use fair_os_dfs.Collection.Node.Loops.{found}
use fair_os_dfs.Collection.Node.Children.{found_child, children_apart, HeadsDiffer}
use fair_os_dfs.Collection.Tree.{
  Loads, Tree, Reads, reads_absent, reads_value, reads_child, Tree-IsNode, Tree-kid, Reads-cases,
  Below, kid-Kept, kid_reads, kids-Tree,
}
use fair_os_dfs.Collection.Tree.Names.{names_apart, parent_apart}
use fair_os_dfs.Collection.Tree.Entered.{Entered, child_named}

module _ {S : Type 0} {D : Type 0} {E : Type 0} (b : Backend S D E) (s s' : S) (m c : Manifest)
    (n r key : Text) (refs : List Text) (t : Tree b s m) (loads_m : Loads b s m.name m)
    (goes : found key m.entries ≡ child n r) (loads_c : Loads b s (m.name ++ n) c)
    (entered : Entered b s s' c r refs) where
  named : c.name ≡ m.name ++ n
  named =
      let (c', l, q) = Tree-kid b s m t key n r goes in
      ap (λ x. x.name) (ok_injective c c' (sym loads_c ∙ l)) ∙ q

  after-Loads : Loads b s' (m.name ++ n) entered.after
  after-Loads = subst (λ x. Loads b s' x entered.after) named entered.loads

  after_named : entered.after.name ≡ m.name ++ n
  after_named = entered.same_name ∙ named

  -- Names that are not behind the child's are kept.
  outside-Kept : (x : Text) → has_prefix x (m.name ++ n) ≡ false → Kept b s s' x
  outside-Kept x q = entered.keeps x (ap (has_prefix x) named ∙ q)

  beside-Below : (n' : Text) → HeadsDiffer n n' → Below b s s' (m.name ++ n')
  beside-Below n' differ u = outside-Kept ((m.name ++ n') ++ u) (names_apart m.name n n' u differ)

  -- The child, or one beside it.
  which : (k n' r' : Text) → found k m.entries ≡ child n' r' → (n ≡ n') ⊎ HeadsDiffer n n'
  which k n' r' q =
      children_apart n n' m.entries (Tree-IsNode b s m t) (found_child key n r m.entries goes).0
        (found_child k n' r' m.entries q).0

  kids :
      (k n' r' : Text)
      → found k m.entries ≡ child n' r'
      → (c' : Manifest) × Loads b s' (m.name ++ n') c' × (c'.name ≡ m.name ++ n') × Tree b s' c'
  kids k n' r' q = elim (which k n' r' q) [
    | inl same ↦ (
      entered.after,
      subst (λ x. Loads b s' (m.name ++ x) entered.after) same after-Loads,
      after_named ∙ ap (λ x. m.name ++ x) same,
      entered.valid,
    )
    | inr differ ↦ kid-Kept b s s' m k n' r' t q (beside-Below n' differ)
  ]

  -- Another key that goes to the child goes on with another rest.
  rest_differs :
      (k n' r' : Text)
      → text_eq key k ≡ false
      → found k m.entries ≡ child n' r'
      → n ≡ n'
      → text_eq r r' ≡ false
  rest_differs k n' r' differ q same =
      sym (text_eq-append n r r')
      ∙ ap (λ x. text_eq x (n ++ r')) (found_child key n r m.entries goes).1
      ∙ ap (text_eq key) (ap (λ x. x ++ r') same ∙ (found_child k n' r' m.entries q).1)
      ∙ differ

  child_old :
      (k n' r' : Text) (c' : Manifest) (res : Option (List Text))
      → text_eq key k ≡ false
      → found k m.entries ≡ child n' r'
      → Loads b s (m.name ++ n') c'
      → Reads b s c' r' res
      → Reads b s' m k res
  child_old k n' r' c' res differ q l deeper = elim (which k n' r' q) [
    | inl same ↦
        let same_c : c' ≡ c =
          ok_injective c' c
            (sym l ∙ ap (λ x. load_manifest b (m.name ++ x) s) (sym same) ∙ loads_c) in
        reads_child n' r' entered.after q
          (subst (λ x. Loads b s' (m.name ++ x) entered.after) same after-Loads)
          (entered.old r' res (rest_differs k n' r' differ q same)
            (subst (λ x. Reads b s x r' res) same_c deeper))
    | inr apart ↦
        let (l', reads') = kid_reads b s s' m c' k n' r' res t q l (beside-Below n' apart) deeper in
        reads_child n' r' c' q l' reads'
  ]

  old_reads :
      (k : Text) (res : Option (List Text))
      → text_eq key k ≡ false
      → Reads b s m k res
      → Reads b s' m k res
  old_reads k res differ reads = elim (Reads-cases b s m k res reads) [
    | inl (q, e) ↦ subst (Reads b s' m k) (sym e) (reads_absent q)
    | inr (inl (had, q, e)) ↦ subst (Reads b s' m k) (sym e) (reads_value had q)
    | inr (inr (n', r', c', q, l, deeper)) ↦ child_old k n' r' c' res differ q l deeper
  ]

  pub descended-Entered : Entered b s s' m key refs
  descended-Entered = record {
    after = m;
    same_name = refl;
    loads =
        outside-Kept m.name (parent_apart m.name n (child_named b s m key n r t goes)) m loads_m;
    valid = kids-Tree b s' m (Tree-IsNode b s m t) kids;
    new = reads_child n r entered.after goes after-Loads entered.new;
    old = old_reads;
    keeps = λ x outside. outside-Kept x (not_prefix_behind m.name n x outside);
  }
