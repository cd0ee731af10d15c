-- ===== src/Collection/Tree.antt =====
-- The tree of manifests that stand behind an index, and what it says of a key.
pub mod Names
pub mod Entered
pub mod Divided
pub mod Descended
pub mod Added
pub mod Found
pub mod Puts
pub mod Outside
pub mod Apart
use fair_os_dfs.Prelude.{
  ℕ, ◌≡◌, refl, sym, ap, ◌∙◌, subst, Bool, true, false, List, [], ◌∷◌, ◌++◌, Option, none, some,
  append-nil, append_assoc, ◌⊎◌, inl, inr,
}
use fair_os_dfs.Prelude.Result.{Result, ok, err, ok_injective}
use fair_os_dfs.Prelude.Text.{Text, text_eq}
use fair_os_dfs.Collection.Manifests.{Manifest, Backend, load_manifest}
use fair_os_dfs.Collection.Manifests.Frames.{Kept}
use fair_os_dfs.Collection.Node.{Look, absent, value, child, IsNode}
use fair_os_dfs.Collection.Node.Loops.{found}

module _ {S : Type 0} {D : Type 0} {E : Type 0} (b : Backend S D E) where
  abbrev pub Loads : S → Text → Manifest → Type 0
  Loads s n c = load_manifest b n s ≡ ok c

  -- The entries are in order, and every child is there, under its name, with its own tree.
  pub data Tree (s : S) : Manifest → Type 0 where
    tree :
        {m : Manifest}
        → IsNode m.entries
        → ((k n r : Text)
            → found k m.entries ≡ child n r
            → (c : Manifest) × Loads s (m.name ++ n) c × (c.name ≡ m.name ++ n))
        → ((k n r : Text) (c : Manifest)
            → found k m.entries ≡ child n r
            → Loads s (m.name ++ n) c
            → Tree s c)
        → Tree s m

  -- What the tree has for a key.
  pub data Reads (s : S) : Manifest → Text → Option (List Text) → Type 0 where
    reads_absent : {m : Manifest} {k : Text} → found k m.entries ≡ absent → Reads s m k none
    reads_value :
        {m : Manifest} {k : Text} (refs : List Text)
        → found k m.entries ≡ value refs
        → Reads s m k (some refs)
    reads_child :
        {m : Manifest} {k : Text} (n r : Text) (c : Manifest) {res : Option (List Text)}
        → found k m.entries ≡ child n r
        → Loads s (m.name ++ n) c
        → Reads s c r res
        → Reads s m k res

  pub Tree-IsNode : (s : S) (m : Manifest) → Tree s m → IsNode m.entries
  Tree-IsNode s m (tree node kids subs) = node

  pub Tree-kid :
      (s : S) (m : Manifest)
      → Tree s m
      → (k n r : Text) → found k m.entries ≡ child n r
      → (c : Manifest) × Loads s (m.name ++ n) c × (c.name ≡ m.name ++ n)
  Tree-kid s m (tree node kids subs) = kids

  pub Tree-sub :
      (s : S) (m : Manifest)
      → Tree s m
      → (k n r : Text) (c : Manifest) → found k m.entries ≡ child n r
      → Loads s (m.name ++ n) c
      → Tree s c
  Tree-sub s m (tree node kids subs) = subs

  -- A tree has something to say of every key.
  pub tree_reads :
      (s : S) (m : Manifest) → Tree s m → (k : Text) → (res : Option (List Text)) × Reads s m k res
  tree_reads s m (tree node kids subs) k =
      said (λ n r c q l. tree_reads s c (subs k n r c q l) r) (found k m.entries) refl
    where
      said :
          ((n r : Text) (c : Manifest)
            → found k m.entries ≡ child n r
            → Loads s (m.name ++ n) c
            → (res : Option (List Text)) × Reads s c r res)
          → (l : Look) → found k m.entries ≡ l
          → (res : Option (List Text)) × Reads s m k res
      said ih absent q = (none, reads_absent q)
      said ih (value refs) q = (some refs, reads_value refs q)
      said ih (child n r) q =
          let (c, l, named) = kids k n r q in
          let (res, reads) = ih n r c q l in (res, reads_child n r c q l reads)

  -- All the names behind a name are kept.
  abbrev pub Below : S → S → Text → Type 0
  Below s s' n = (t : Text) → Kept b s s' (n ++ t)

  pub Below-child :
      (s s' : S) (m c : Manifest) (n : Text)
      → Below s s' m.name
      → c.name ≡ m.name ++ n
      → Below s s' c.name
  Below-child s s' m c n kept named t =
      subst (Kept b s s') (sym (append_assoc m.name n t) ∙ ap (λ x. x ++ t) (sym named))
        (kept (n ++ t))

  pub Tree-Kept : (s s' : S) (m : Manifest) → Tree s m → Below s s' m.name → Tree s' m
  Tree-Kept s s' m (tree node kids subs) kept =
      tree node (λ k n r q. let (c, l, named) = kids k n r q in (c, kept n c l, named))
        (λ k n r c' q l'.
          let (c, l, named) = kids k n r q in
          subst (Tree s') (ok_injective c c' (sym (kept n c l) ∙ l'))
            (Tree-Kept s s' c (subs k n r c q l) (Below-child s s' m c n kept named)))

  pub Reads-Kept :
      (s s' : S) (m : Manifest) (k : Text) (res : Option (List Text))
      → Reads s m k res
      → Tree s m
      → Below s s' m.name
      → Reads s' m k res
  Reads-Kept s s' m k res (reads_absent q) t kept = reads_absent q
  Reads-Kept s s' m k res (reads_value refs q) t kept = reads_value refs q
  Reads-Kept s s' m k res (reads_child n r c q l reads) t kept =
      let (c', l', named) = Tree-kid s m t k n r q in
      let same : c' ≡ c = ok_injective c' c (sym l' ∙ l) in
      reads_child n r c q (kept n c l) (
        Reads-Kept s s' c r res reads (Tree-sub s m t k n r c q l)
          (Below-child s s' m c n kept (ap (λ x. x.name) (sym same) ∙ named)))

  -- A child whose names are kept is there with its tree, and says what it said.
  pub kid-Kept :
      (s s' : S) (m : Manifest) (k n r : Text)
      → Tree s m
      → found k m.entries ≡ child n r
      → Below s s' (m.name ++ n)
      → (c : Manifest) × Loads s' (m.name ++ n) c × (c.name ≡ m.name ++ n) × Tree s' c
  kid-Kept s s' m k n r t q kept =
      let (c, l, named) = Tree-kid s m t k n r q in
      let here : Kept b s s' (m.name ++ n) =
        subst (Kept b s s') (append-nil (m.name ++ n)) (kept []) in
      (
        c,
        here c l,
        named,
        Tree-Kept s s' c (Tree-sub s m t k n r c q l) (subst (Below s s') (sym named) kept),
      )

  pub kid_reads :
      (s s' : S) (m c : Manifest) (k n r : Text) (res : Option (List Text))
      → Tree s m
      → found k m.entries ≡ child n r
      → Loads s (m.name ++ n) c
      → Below s s' (m.name ++ n)
      → Reads s c r res
      → Loads s' (m.name ++ n) c × Reads s' c r res
  kid_reads s s' m c k n r res t q l kept reads =
      let (c', l', named) = Tree-kid s m t k n r q in
      let same : c' ≡ c = ok_injective c' c (sym l' ∙ l) in
      let named' : m.name ++ n ≡ c.name = sym named ∙ ap (λ x. x.name) same in
      let here : Kept b s s' (m.name ++ n) =
        subst (Kept b s s') (append-nil (m.name ++ n)) (kept []) in
      (
        here c l,
        Reads-Kept s s' c r res reads (Tree-sub s m t k n r c q l) (subst (Below s s') named' kept),
      )

  pub kids-Tree :
      (s : S) (m : Manifest)
      → IsNode m.entries
      → ((k n r : Text)
          → found k m.entries ≡ child n r
          → (c : Manifest) × Loads s (m.name ++ n) c × (c.name ≡ m.name ++ n) × Tree s c)
      → Tree s m
  kids-Tree s m node kids =
      tree node (λ k n r q. let (c, l, named, t) = kids k n r q in (c, l, named))
        (λ k n r c' q l'.
          let (c, l, named, t) = kids k n r q in subst (Tree s) (ok_injective c c' (sym l ∙ l')) t)

  pub Reads-cases :
      (s : S) (m : Manifest) (k : Text) (res : Option (List Text))
      → Reads s m k res
      → ((found k m.entries ≡ absent) × (res ≡ none))
        ⊎ (((refs : List Text) × (found k m.entries ≡ value refs) × (res ≡ some refs))
            ⊎ ((n r : Text) × (c : Manifest) × (found k m.entries ≡ child n r)
                × Loads s (m.name ++ n) c
                × Reads s c r res))
  Reads-cases s m k res (reads_absent q) = inl (q, refl)
  Reads-cases s m k res (reads_value refs q) = inr (inl (refs, q, refl))
  Reads-cases s m k res (reads_child n r c q l reads) = inr (inr (n, r, c, q, l, reads))
