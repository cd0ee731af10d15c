-- ===== src/Collection/Iterator/Next.antt =====
-- Next (pkg/collection/iterator.go) goes through the leaves of the tree of manifests.
use fair_os_dfs.Prelude.{
  arith, ℕ, zero, suc, ◌+◌, ◌<◌, ◌≤◌, ◌≡◌, inl, inr, refl, sym, ap, ◌∙◌, subst, Bool, true, false,
  List, [], ◌∷◌, ◌++◌, Option, some, append_assoc,
}
use fair_os_dfs.Prelude.Text.{Text, text_eq}
use fair_os_dfs.Collection.Manifests.{Manifest, Backend}
use fair_os_dfs.Collection.Tree.{Loads}
use fair_os_dfs.Prelude.Result.{ok}
use fair_os_dfs.Collection.Iterator.{
  ManifestState, err_no_next_element, Iterator, given_all, Popped, exhausted, no_manifest, at_entry,
  Held, child_manifest, pop_exhausted, actual_key, next_string_key,
}
use fair_os_dfs.Collection.Iterator.Listing.{
  Item, Lists-cons, StackLists, StackLists-nil, state_first, Top, pop-Top,
}

module _ {S : Type 0} {D : Type 0} {E : Type 0} (b : Backend S D E) (index_name : Text)
    (limit : Option ℕ) (s : S) where
  -- An iterator over the index without an end key.
  pub record Over (itr : Iterator) : Type 0 where
    pub named : itr.index_name ≡ index_name
    pub no_end : text_eq itr.end_prefix [] ≡ true
    pub limited : itr.limit ≡ limit
    pub mutable_index : itr.mutable_index ≡ true

  -- What Next answers with these leaves to come: the first of them, or that there is none.
  abbrev pub Stepped : Iterator → List Item → ℕ → Option (Bool × Iterator) → Type 0
  Stepped itr [] n o =
      (last : Iterator) × (o ≡ some (false, last)) × (last.error ≡ some err_no_next_element)
  Stepped itr (item ∷ items) n o =
      (after : Iterator) × (k : ℕ) × (o ≡ some (true, after))
      × ((after.current_key, after.current_value) ≡ item)
      × (after.given_until_now ≡ suc itr.given_until_now)
      × Over after
      × StackLists b index_name s after.manifest_stack items k
      × (k ≤ n)

  Stepped-more :
      (itr : Iterator) (items : List Item) (n n' : ℕ) (o : Option (Bool × Iterator))
      → n ≤ n'
      → Stepped itr items n o
      → Stepped itr items n' o
  Stepped-more itr [] n n' o le h = h
  Stepped-more itr (x ∷ items) n n' o le (after, k, q, item, given, over, lists, le') =
      (after, k, q, item, given, over, lists, omega (arith, le, le'))

  loaded_child :
      {mutable_index : Bool} (path : Text) {c : Manifest} (held : Held)
      → mutable_index ≡ true
      → Loads b s path c
      → child_manifest b mutable_index held path s ≡ ok (some c)
  unfolding child_manifest
  loaded_child path held q l = rw (child_manifest, q, l) refl

  pub next-Stepped :
      (fuel : ℕ) (itr : Iterator) (items : List Item) (n : ℕ)
      → n < fuel
      → Over itr
      → given_all itr.limit itr.given_until_now ≡ false
      → StackLists b index_name s itr.manifest_stack items n
      → Stepped itr items n (next_string_key b fuel itr s)
  unfolding next_string_key text_eq
  next-Stepped zero itr items n lt over more lists = ground arith
  next-Stepped (suc fuel) itr items n lt over more lists =
      stacked
        (λ itr' items' n' lt' over' more' lists'.
          next-Stepped fuel itr' items' n' lt' over' more' lists')
        itr.manifest_stack refl lists
    where
      Deeper : Type 0
      Deeper =
          (itr' : Iterator) (items' : List Item) (n' : ℕ)
          → n' < fuel
          → Over itr'
          → given_all itr'.limit itr'.given_until_now ≡ false
          → StackLists b index_name s itr'.manifest_stack items' n'
          → Stepped itr' items' n' (next_string_key b fuel itr' s)

      goal : List Item → Type 0
      goal x = Stepped itr x n (next_string_key b (suc fuel) itr s)

      entered :
          Deeper
          → (top : ManifestState) (stack : List ManifestState) → itr.manifest_stack ≡ top ∷ stack
          → (popped : Popped) → pop_exhausted top stack ≡ popped
          → Top b index_name s popped items n
          → goal items
      entered ih top stack q (exhausted last) q' none_left =
          let final : Iterator = record itr {
            manifest_stack = last ∷ [];
            error = some err_no_next_element;
          } in
          subst goal (sym none_left) (final, rw (next_string_key, more, q, q') refl, refl)
      entered ih top stack q (no_manifest left) q' none_there = absurd none_there
      entered ih top stack q (at_entry m i below e) q' (here, rest, j, k, lists, belows, qi, qn) =
          elim (Lists-cons b index_name s m e _ here j lists) [
            | inl (t, (later, qh, laters)) ↦
                let after : Iterator = record itr {
                  current_key = actual_key itr.index_name m e;
                  current_value = e.ref;
                  given_until_now = suc itr.given_until_now;
                  manifest_stack =
                      record { current_manifest = some m; current_index = suc i } ∷ below;
                } in
                subst goal (sym (qi ∙ ap (λ x. x ++ rest) qh)) (
                  after,
                  j + k,
                  rw (next_string_key, more, q, q', over.no_end, t) refl,
                  ap (λ x. (actual_key x m e, e.ref)) over.named,
                  refl,
                  record {
                    named = over.named;
                    no_end = over.no_end;
                    limited = over.limited;
                    mutable_index = over.mutable_index;
                  },
                  state_first m refl laters belows,
                  omega (arith, qn),
                )
            | inr (t, (c, deep, later, k', j', l, deeps, laters, qh, qn')) ↦
                let state' : ManifestState = record {
                  current_manifest = some m;
                  current_index = suc i;
                } in
                let stack' : List ManifestState =
                  record { current_manifest = some c; current_index = 0 } ∷ state' ∷ below in
                let itr' : Iterator = record itr { manifest_stack = stack' } in
                let items' : deep ++ (later ++ rest) ≡ items =
                  sym (append_assoc deep later rest) ∙ ap (λ x. x ++ rest) (sym qh) ∙ sym qi in
                let over' : Over itr' = record {
                  named = over.named;
                  no_end = over.no_end;
                  limited = over.limited;
                  mutable_index = over.mutable_index;
                } in
                subst goal items' (
                  rw
                    (
                      next_string_key,
                      more,
                      q,
                      q',
                      over.no_end,
                      t,
                      loaded_child (m.name ++ e.name) itr.held over.mutable_index l,
                    )
                    (Stepped-more itr (deep ++ (later ++ rest)) (k' + (j' + k)) n _
                      (omega (arith, qn, qn'))
                      (ih itr' (deep ++ (later ++ rest)) (k' + (j' + k))
                        (omega (arith, lt, qn, qn')) over' more
                        (state_first c refl deeps (state_first m refl laters belows)))))
          ]

      no_states_left :
          itr.manifest_stack ≡ []
          → (last : Iterator) → record itr { error = some err_no_next_element } ≡ last
          → next_string_key b (suc fuel) itr s ≡ some (false, last)
      no_states_left q last same = rw (next_string_key, more, q) (ap (λ x. some (false, x)) same)

      stacked :
          Deeper
          → (stack : List ManifestState) → itr.manifest_stack ≡ stack
          → StackLists b index_name s stack items n
          → goal items
      stacked ih [] q lists =
          subst goal (sym (StackLists-nil b index_name s items n lists))
            (record itr { error = some err_no_next_element }, no_states_left q _ refl, refl)
      stacked ih (top ∷ stack) q lists =
          entered ih top stack q (pop_exhausted top stack) refl
            (pop-Top b index_name s top stack items n lists)
