-- ===== src/Collection/Iterator/Listing.antt =====
-- What an iterator that is not limited gives: the leaves of the tree of manifests, from left to right.
use fair_os_dfs.Prelude.{
  arith, ℕ, zero, suc, ◌+◌, ◌≡◌, ◌⊎◌, inl, inr, refl, sym, ap, subst, List, [], ◌∷◌, ◌++◌, Option,
  none, some, get_elem?, drop,
}
use fair_os_dfs.Prelude.Text.{Text}
use fair_os_dfs.Collection.Entries.{leaf_entry, intermediate_entry, Entry}
use fair_os_dfs.Collection.Manifests.{Manifest, Backend}
use fair_os_dfs.Collection.Tree.{Loads}
use fair_os_dfs.Collection.Iterator.{
  ManifestState, Popped, exhausted, no_manifest, at_entry, pop_exhausted, actual_key,
}

abbrev pub Item : Type 0
Item = Text × List Text

abbrev pub EntryAt : List Entry → ℕ → Option Entry → Type 0
EntryAt es i none = drop i es ≡ []
EntryAt es i (some e) = drop i es ≡ e ∷ drop (suc i) es

pub entry_at : (es : List Entry) (i : ℕ) → EntryAt es i (get_elem? es i)
entry_at [] zero = refl
entry_at [] (suc i) = refl
entry_at (e ∷ es) zero = refl
entry_at (e ∷ es) (suc i) = entry_at es i

module _ {S : Type 0} {D : Type 0} {E : Type 0} (b : Backend S D E) (index_name : Text)
    (s : S) where
  -- The leaves behind some entries of a manifest, and how many manifests are loaded for them.
  pub data Lists : Manifest → List Entry → List Item → ℕ → Type 0 where
    no_entries : {m : Manifest} → Lists m [] [] 0
    leaf_first :
        {m : Manifest} {e : Entry} {es : List Entry} {items : List Item} {n : ℕ}
        → e.e_type ≡ leaf_entry
        → Lists m es items n
        → Lists m (e ∷ es) ((actual_key index_name m e, e.ref) ∷ items) n
    child_first :
        {m : Manifest} {e : Entry} {es : List Entry} {below items : List Item} {n k : ℕ}
        (c : Manifest)
        → e.e_type ≡ intermediate_entry
        → Loads b s (m.name ++ e.name) c
        → Lists c c.entries below k
        → Lists m es items n
        → Lists m (e ∷ es) (below ++ items) (suc (k + n))

  pub Lists-nil :
      (m : Manifest) (items : List Item) (n : ℕ) → Lists m [] items n → (items ≡ []) × (n ≡ 0)
  Lists-nil m items n no_entries = (refl, refl)

  pub Lists-cons :
      (m : Manifest) (e : Entry) (es : List Entry) (items : List Item) (n : ℕ)
      → Lists m (e ∷ es) items n
      → ((e.e_type ≡ leaf_entry)
          × ((rest : List Item) × (items ≡ (actual_key index_name m e, e.ref) ∷ rest)
              × Lists m es rest n))
        ⊎ ((e.e_type ≡ intermediate_entry)
            × ((c : Manifest) × (below : List Item) × (rest : List Item) × (k : ℕ) × (j : ℕ) × Loads
                  b s
                  (m.name ++ e.name)
                  c
                × Lists c c.entries below k
                × Lists m es rest j
                × (items ≡ below ++ rest)
                × (n ≡ suc (k + j))))
  Lists-cons m e es items n (leaf_first t rest) = inl (t, (_, refl, rest))
  Lists-cons m e es items n (child_first c t l below rest) =
      inr (t, (c, _, _, _, _, l, below, rest, refl, refl))

  -- The same of a stack, each of whose manifests goes on at its index.
  pub data StackLists : List ManifestState → List Item → ℕ → Type 0 where
    no_states : StackLists [] [] 0
    state_first :
        {state : ManifestState} {stack : List ManifestState} {items rest : List Item} {n k : ℕ}
        (m : Manifest)
        → state.current_manifest ≡ some m
        → Lists m (drop state.current_index m.entries) items n
        → StackLists stack rest k
        → StackLists (state ∷ stack) (items ++ rest) (n + k)

  pub StackLists-nil : (items : List Item) (n : ℕ) → StackLists [] items n → items ≡ []
  StackLists-nil items n no_states = refl

  abbrev pub Top : Popped → List Item → ℕ → Type 0
  Top (exhausted last) items n = items ≡ []
  Top (no_manifest left) items n = ⊥
  Top (at_entry m i below e) items n =
      (here : List Item) × (rest : List Item) × (j : ℕ) × (k : ℕ) × Lists m
        (e ∷ drop (suc i) m.entries) here j
      × StackLists below rest k
      × (items ≡ here ++ rest)
      × (n ≡ j + k)

  Top-same :
      (popped : Popped) (items items' : List Item) (n n' : ℕ)
      → items ≡ items'
      → n ≡ n'
      → Top popped items' n'
      → Top popped items n
  Top-same popped items items' n n' p q t =
      subst (λ x. Top popped x n) (sym p) (subst (Top popped items') (sym q) t)

  pub pop-Top :
      (top : ManifestState) (stack : List ManifestState) (items : List Item) (n : ℕ)
      → StackLists (top ∷ stack) items n
      → Top (pop_exhausted top stack) items n
  unfolding pop_exhausted
  pop-Top top [] items n
        (state_first {items = here} {rest = rest} {n = j} {k = k} m has lists below) =
      popped (get_elem? es top.current_index) refl (entry_at es top.current_index)
    where
      es : List Entry
      es = m.entries

      popped :
          (o : Option Entry)
          → get_elem? es top.current_index ≡ o
          → EntryAt es top.current_index o
          → Top (pop_exhausted top []) (here ++ rest) (j + k)
      popped none q at =
          let gone = Lists-nil m here j (subst (λ x. Lists m x here j) at lists) in
          rw (pop_exhausted, has, q, gone.0) (StackLists-nil rest k below)
      popped (some e) q at =
          rw (pop_exhausted, has, q)
            (here, rest, j, k, subst (λ x. Lists m x here j) at lists, below, refl, refl)
  pop-Top top (next ∷ stack) items n
        (state_first {items = here} {rest = rest} {n = j} {k = k} m has lists below) =
      popped (pop-Top next stack rest k below) (get_elem? es top.current_index) refl
        (entry_at es top.current_index)
    where
      es : List Entry
      es = m.entries

      popped :
          Top (pop_exhausted next stack) rest k
          → (o : Option Entry) → get_elem? es top.current_index ≡ o
          → EntryAt es top.current_index o
          → Top (pop_exhausted top (next ∷ stack)) (here ++ rest) (j + k)
      popped ih none q at =
          let gone = Lists-nil m here j (subst (λ x. Lists m x here j) at lists) in
          rw (pop_exhausted, has, q)
            (Top-same (pop_exhausted next stack) (here ++ rest) rest (j + k) k
              (ap (λ x. x ++ rest) gone.0) (omega (arith, gone.1)) ih)
      popped ih (some e) q at =
          rw (pop_exhausted, has, q)
            (here, rest, j, k, subst (λ x. Lists m x here j) at lists, below, refl, refl)
