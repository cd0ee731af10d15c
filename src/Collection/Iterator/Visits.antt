-- ===== src/Collection/Iterator/Visits.antt =====
-- An iterator over the tree of manifests behind an index visits the keys that Get finds.
use mathlib.Core.List.{Memᴰ}
use mathlib.Core.List.Memᴰ
use fair_os_dfs.Prelude.{
  arith, ℕ, suc, ◌+◌, ◌≡◌, inl, inr, refl, sym, ap, ◌∙◌, subst, List, [], ◌∷◌, ◌++◌, Option, some,
  append_assoc,
}
use fair_os_dfs.Prelude.Result.{ok_injective}
use fair_os_dfs.Prelude.Text.{Text, trim_prefix}
use fair_os_dfs.Collection.Entries.{EType, leaf_entry, intermediate_entry, Entry}
use fair_os_dfs.Collection.Manifests.{Manifest, Backend}
use fair_os_dfs.Collection.Node.{value, HasChild}
use fair_os_dfs.Collection.Node.Children.{found_child}
use fair_os_dfs.Collection.Tree.{
  Loads, Tree, tree, Reads, reads_absent, reads_value, reads_child, Tree-IsNode, Tree-kid, Tree-sub,
}
use fair_os_dfs.Collection.Iterator.{actual_key}
use fair_os_dfs.Collection.Iterator.Listing.{Item, Lists, no_entries, leaf_first, child_first}
use fair_os_dfs.Collection.Iterator.Leaves.{HasLeaf, found_leaf, HasChild-found}

module _ {S : Type 0} {D : Type 0} {E : Type 0} (b : Backend S D E) (index_name : Text)
    (s : S) where
  -- A child that an entry names is there, under its name, with its tree.
  pub child_of :
      (m : Manifest) (n : Text)
      → Tree b s m
      → HasChild n m.entries
      → (c : Manifest) × Loads b s (m.name ++ n) c × (c.name ≡ m.name ++ n) × Tree b s c
  child_of m n t has =
      let q = HasChild-found n [] m.entries (Tree-IsNode b s m t) has in
      let (c, l, named) = Tree-kid b s m t (n ++ []) n [] q in
      (c, l, named, Tree-sub b s m t (n ++ []) n [] c q l)

  -- Every tree has a listing.
  abbrev Listed : Manifest → List Entry → Type 0
  Listed m es = (items : List Item) × (n : ℕ) × Lists b index_name s m es items n

  pub Tree-Lists : (m : Manifest) → Tree b s m → Listed m m.entries
  Tree-Lists m (tree node kids subs) =
      listed
        (λ n has.
          let q = HasChild-found n [] m.entries node has in
          let (c, l, named) = kids (n ++ []) n [] q in
          (c, l, Tree-Lists c (subs (n ++ []) n [] c q l)))
        m.entries (λ n has. has)
    where
      listed :
          ((n : Text)
            → HasChild n m.entries
            → (c : Manifest) × Loads b s (m.name ++ n) c × Listed c c.entries)
          → (es : List Entry) → ((n : Text) → HasChild n es → HasChild n m.entries)
          → Listed m es
      listed below [] among = ([], 0, no_entries)
      listed below (e ∷ es) among =
          first e.e_type refl (listed below es (λ n has. among n (inr has)))
        where
          first : (t : EType) → e.e_type ≡ t → Listed m es → Listed m (e ∷ es)
          first leaf_entry q (items, n, rest) =
              ((actual_key index_name m e, e.ref) ∷ items, n, leaf_first q rest)
          first intermediate_entry q (items, n, rest) =
              let (c, l, (sub, k, deep)) = below e.name (among e.name (inl (refl, q))) in
              (sub ++ items, suc (k + n), child_first c q l deep rest)

  -- A leaf is listed.
  leaf_listed :
      (m : Manifest) (es : List Entry) (items : List Item) (n : ℕ) (k : Text) (ref : List Text)
      → Lists b index_name s m es items n
      → HasLeaf k ref es
      → Memᴰ (trim_prefix (m.name ++ k) index_name, ref) items
  leaf_listed m es items n k ref no_entries has = absurd has
  leaf_listed m es items n k ref (leaf_first {e = e} t rest) (inl (q, t', r)) = Memᴰ.head (
      ap (λ x. (trim_prefix (m.name ++ x) index_name, ref)) (sym q)
      ∙ ap (λ x. (trim_prefix (m.name ++ e.name) index_name, x)) (sym r))
  leaf_listed m es items n k ref (leaf_first {es = later} t rest) (inr has) =
      Memᴰ.tail (leaf_listed m later _ _ k ref rest has)
  leaf_listed m es items n k ref (child_first c t l deep rest) (inl (q, t', r)) =
      let clash : leaf_entry ≡ intermediate_entry = sym t' ∙ t in ground (arith, clash)
  leaf_listed m es items n k ref (child_first {es = later} {below = below} c t l deep rest)
        (inr has) =
      Memᴰ.append_right below (leaf_listed m later _ _ k ref rest has)

  -- What a child lists is listed.
  child_listed :
      (m : Manifest) (es : List Entry) (items : List Item) (n : ℕ) (name : Text)
      → Lists b index_name s m es items n
      → HasChild name es
      → (c : Manifest) × (below : List Item) × (k : ℕ) × Loads b s (m.name ++ name) c
        × Lists b index_name s c c.entries below k
        × ((x : Item) → Memᴰ x below → Memᴰ x items)
  child_listed m es items n name no_entries has = absurd has
  child_listed m es items n name (leaf_first t rest) (inl (q, t')) =
      let clash : leaf_entry ≡ intermediate_entry = sym t ∙ t' in ground (arith, clash)
  child_listed m es items n name (leaf_first {es = later} t rest) (inr has) =
      let (c, below, k, l, deep, among) = child_listed m later _ _ name rest has in
      (c, below, k, l, deep, λ x mem. Memᴰ.tail (among x mem))
  child_listed m es items n name (child_first {below = below} {items = others} c t l deep rest)
        (inl (q, t')) =
      (
        c,
        below,
        _,
        subst (λ x. Loads b s (m.name ++ x) c) q l,
        deep,
        λ x mem. Memᴰ.append_left others mem,
      )
  child_listed m es items n name (child_first {es = later} {below = front} c t l deep rest)
        (inr has) =
      let (c', below, k, l', deep', among) = child_listed m later _ _ name rest has in
      (c', below, k, l', deep', λ x mem. Memᴰ.append_right front (among x mem))

  -- What the tree has for a key is listed.
  pub Reads-listed :
      (m : Manifest) (k : Text) (res : Option (List Text)) (refs : List Text) (items : List Item)
      (n : ℕ)
      → Reads b s m k res
      → res ≡ some refs
      → Tree b s m
      → Lists b index_name s m m.entries items n
      → Memᴰ (trim_prefix (m.name ++ k) index_name, refs) items
  Reads-listed m k res refs items n (reads_absent q) e t lists = ground (arith, e)
  Reads-listed m k res refs items n (reads_value had q) e t lists =
      let same : had ≡ refs = ground (arith, e) in
      leaf_listed m m.entries items n k refs lists (found_leaf k refs m.entries (q ∙ ap value same))
  Reads-listed m k res refs items n (reads_child name r c q l reads) e t lists =
      let (has, parts) = found_child k name r m.entries q in
      let (c', l', named) = Tree-kid b s m t k name r q in
      let (c'', below, j, l'', deep, among) = child_listed m m.entries items n name lists has in
      let same : c'' ≡ c = ok_injective c'' c (sym l'' ∙ l) in
      let same' : c' ≡ c = ok_injective c' c (sym l' ∙ l) in
      let whole : c.name ++ r ≡ m.name ++ k =
        ap (λ x. x.name ++ r) (sym same')
        ∙ ap (λ x. x ++ r) named
        ∙ append_assoc m.name name r
        ∙ ap (λ x. m.name ++ x) parts in
      subst (λ x. Memᴰ (trim_prefix x index_name, refs) items) whole
        (among _ (
          Reads-listed c r res refs below j reads e (Tree-sub b s m t k name r c q l)
            (subst (λ x. Lists b index_name s x x.entries below j) same deep)))
