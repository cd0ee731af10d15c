-- ===== src/Collection/Iterator/Whole.antt =====
-- An iterator without a start or an end key over a whole index, and Get.
use mathlib.Core.Option.{some-injective}
use mathlib.Core.List.{Memᴰ}
use mathlib.Core.List.Memᴰ
use fair_os_dfs.Prelude.{
  arith, Bool, true, if◌then◌else◌, ℕ, suc, ◌≡◌, inl, inr, refl, sym, ap, ◌∙◌, subst, List, [], ◌∷◌,
  ◌++◌, Option, none, some, length, append-nil, append_assoc,
}
use fair_os_dfs.Prelude.Result.{ok, ok_injective, err_not_ok}
use fair_os_dfs.Prelude.Text.{Text, text_eq, trim_prefix, trim_prefix-append}
use fair_os_dfs.Collection.Entries.{Entry}
use fair_os_dfs.Collection.Manifests.{Manifest, err_entry_not_found, Backend}
use fair_os_dfs.Collection.Index.{Index, get}
use fair_os_dfs.Collection.Node.{HasChild}
use fair_os_dfs.Collection.Tree.{
  Loads, Tree, Reads, reads_value, reads_child, Tree-IsNode, tree_reads,
}
use fair_os_dfs.Collection.Tree.Found.{answer}
use fair_os_dfs.Collection.Tree.Puts.{IsIndex, root_get}
use fair_os_dfs.Collection.Iterator.{Held, Iterator, new_iterator}
use fair_os_dfs.Collection.Iterator.Seek.{new_string_iterator}
use fair_os_dfs.Collection.Iterator.Listing.{
  Item, Lists, no_entries, leaf_first, child_first, StackLists, no_states, state_first,
}
use fair_os_dfs.Collection.Iterator.Leaves.{HasLeaf, HasChild-found, HasLeaf-found}
use fair_os_dfs.Collection.Iterator.Collect.{within, collect, collect-items}
use fair_os_dfs.Collection.Iterator.Visits.{child_of, Tree-Lists, Reads-listed}

answer-some :
    (res : Option (List Text)) (refs : List Text) → answer res ≡ some (ok refs) → res ≡ some refs
answer-some none refs h = absurd (err_not_ok err_entry_not_found refs (some-injective _ _ h))
answer-some (some had) refs h = ap some (ok_injective had refs (some-injective _ _ h))

if_true : {A : Type 0} (c : Bool) (x y : A) → c ≡ true → (if c then x else y) ≡ x
if_true c x y h = rw h refl

module _ {S : Type 0} {D : Type 0} {E : Type 0} (b : Backend S D E) (s : S) where
  module _ (index_name : Text) where
    -- The tree has something for a key that is listed, behind the name of the manifest.
    abbrev Behind : Manifest → Text → Type 0
    Behind m key =
        (k : Text) × (key ≡ trim_prefix (m.name ++ k) index_name)
        × ((refs : List Text) × Reads b s m k (some refs))

    listed-Reads :
        (m : Manifest) (es : List Entry) (items : List Item) (n : ℕ) (key : Text) (refs : List Text)
        → Lists b index_name s m es items n
        → Tree b s m
        → ((k : Text) (ref : List Text) → HasLeaf k ref es → HasLeaf k ref m.entries)
        → ((name : Text) → HasChild name es → HasChild name m.entries)
        → Memᴰ (key, refs) items
        → Behind m key
    listed-Reads m es items n key refs no_entries t leaves kids mem = absurd (Memᴰ.not-nil mem)
    listed-Reads m es items n key refs (leaf_first {e = e} {es = later} q rest) t leaves kids mem =
        elim (Memᴰ.cases_cons mem) [
          | inl same ↦
              let (had, found_it) =
                HasLeaf-found e.name e.ref m.entries (Tree-IsNode b s m t)
                  (leaves e.name e.ref (inl (refl, q, refl))) in
              (e.name, ap (λ x. x.0) same, (had, reads_value had found_it))
          | inr mem' ↦
              listed-Reads m later _ _ key refs rest t (λ k ref has. leaves k ref (inr has))
                (λ name has. kids name (inr has)) mem'
        ]
    listed-Reads m es items n key refs
          (child_first {e = e} {es = later} {below = below} c q l deep rest) t leaves kids mem =
        elim (Memᴰ.append_cases below mem) [
          | inl mem' ↦
              let has = kids e.name (inl (refl, q)) in
              let (c', l', named, t') = child_of b index_name s m e.name t has in
              let same : c' ≡ c = ok_injective c' c (sym l' ∙ l) in
              let (k, whole, (had, reads)) =
                listed-Reads c c.entries below _ key refs deep (subst (Tree b s) same t')
                  (λ k ref has'. has') (λ name has'. has') mem' in
              let path : c.name ++ k ≡ m.name ++ (e.name ++ k) =
                ap (λ x. x.name ++ k) (sym same)
                ∙ ap (λ x. x ++ k) named
                ∙ append_assoc m.name e.name k in
              (
                e.name ++ k,
                whole ∙ ap (λ x. trim_prefix x index_name) path,
                (
                  had,
                  reads_child e.name k c
                      (HasChild-found e.name k m.entries (Tree-IsNode b s m t) has) l reads,
                ),
              )
          | inr mem' ↦
              listed-Reads m later _ _ key refs rest t (λ k ref has. leaves k ref (inr has))
                (λ name has. kids name (inr has)) mem'
        ]

  opened :
      (idx : Index) (held : Held) (limit : Option ℕ) (m : Manifest) (n : ℕ)
      → idx.mutable_index ≡ true
      → Loads b s idx.name m
      → new_string_iterator b n idx held [] [] limit s
        ≡ some (
            ok (
              new_iterator idx held [] limit
                (record { current_manifest = some m; current_index = 0 } ∷ [])))
  unfolding new_string_iterator text_eq
  opened idx held limit m n mutable_index l =
      if_true idx.mutable_index _ _ mutable_index ∙ rw l refl

  -- For a mutable handle of an index whose tree of manifests is there, each with its entries in
  -- order, an iterator without a start or an end key ends, after as many calls of Next as there
  -- are leaves and one, with the leaves up to its limit, and among all the leaves every key that
  -- Get finds stands with its references, and Get finds every key that does.
  pub iterate-get :
      (idx : Index) (held : Held) (limit : Option ℕ)
      → idx.mutable_index ≡ true
      → IsIndex b s idx.name
      → (itr : Iterator) × (items : List Item) × (n : ℕ) × (new_string_iterator b n idx held [] []
            limit s
          ≡ some (ok itr))
        × ((last : Iterator) × (collect b (suc (length items)) (suc n) itr s
              ≡ some (within limit 0 items, last)))
        × ((k : Text) (refs : List Text) → get b idx k s ≡ some (ok refs) → Memᴰ (k, refs) items)
        × ((k : Text) (refs : List Text)
            → Memᴰ (k, refs) items
            → (refs' : List Text) × (get b idx k s ≡ some (ok refs')))
  unfolding new_string_iterator text_eq
  iterate-get idx held limit mutable_index (m, l, named, t) =
      let (items, n, lists) = Tree-Lists b idx.name s m t in
      let itr =
        new_iterator idx held [] limit
          (record { current_manifest = some m; current_index = 0 } ∷ []) in
      let key_of : (k : Text) → trim_prefix (m.name ++ k) idx.name ≡ k =
        λ k. ap (λ x. trim_prefix (x ++ k) idx.name) named ∙ trim_prefix-append idx.name k in
      (
        itr,
        items,
        n,
        opened idx held limit m n mutable_index l,
        collect-items b idx.name limit s (suc (length items)) (suc n) itr items n (omega arith)
            (omega arith)
            (record { named = refl; no_end = refl; limited = refl; mutable_index = mutable_index })
            (subst (λ x. StackLists b idx.name s itr.manifest_stack x n) (append-nil items)
              (subst (StackLists b idx.name s itr.manifest_stack (items ++ [])) (omega arith)
                (state_first m refl lists no_states))),
        λ k refs h.
            let (res, reads) = tree_reads b s m t k in
            let is_some = answer-some res refs (sym (root_get b idx s m k res l t reads) ∙ h) in
            subst (λ x. Memᴰ (x, refs) items) (key_of k)
              (Reads-listed b idx.name s m k res refs items n reads is_some t lists),
        λ k refs mem.
            let (k', whole, (refs', reads)) =
              listed-Reads idx.name m m.entries items n k refs lists t (λ x ref has. has)
                (λ name has. has) mem in
            let same : k' ≡ k = sym (key_of k') ∙ sym whole in
            (
              refs',
              subst (λ x. get b idx x s ≡ some (ok refs')) same
                  (root_get b idx s m k' (some refs') l t reads),
            ),
      )
