-- ===== src/Collection/Iterator/Collect.antt =====
-- The loop of a caller over Next (pkg/collection/iterator.go).
use fair_os_dfs.Prelude.{
  arith, ℕ, zero, suc, ◌-◌, ◌<◌, ◌≡◌, inl, inr, refl, sym, ap, ◌∙◌, true, false, List, [], ◌∷◌,
  Option, none, some, length, take, Bool-cases, leb→le,
}
use fair_os_dfs.Prelude.Text.{Text}
use fair_os_dfs.Collection.Manifests.{Backend}
use fair_os_dfs.Collection.Iterator.{Iterator, given_all, next_string_key}
use fair_os_dfs.Collection.Iterator.Listing.{Item, StackLists}
use fair_os_dfs.Collection.Iterator.Next.{Over, Stepped, next-Stepped}

-- The leaves that a limit leaves.
abbrev pub within : Option ℕ → ℕ → List Item → List Item
within none given items = items
within (some limit) given items = take (limit - given) items

within_nil : (limit : Option ℕ) (given : ℕ) → within limit given [] ≡ []
within_nil none given = refl
within_nil (some limit) given = take_nil (limit - given)
  where
    take_nil : (n : ℕ) → take {A = Item} n [] ≡ []
    take_nil zero = refl
    take_nil (suc n) = refl

within_all :
    (limit : Option ℕ) (given : ℕ) (items : List Item)
    → given_all limit given ≡ true
    → within limit given items ≡ []
within_all none given items h = ground (arith, h)
within_all (some limit) given items h =
    let le = leb→le limit given h in
    let zero_left : limit - given ≡ 0 = omega (arith, le) in ap (λ n. take n items) zero_left

within_cons :
    (limit : Option ℕ) (given : ℕ) (item : Item) (items : List Item)
    → given_all limit given ≡ false
    → within limit given (item ∷ items) ≡ item ∷ within limit (suc given) items
within_cons none given item items h = refl
within_cons (some limit) given item items h =
    let one_more : limit - given ≡ suc (limit - suc given) = ground (arith, h) in
    ap (λ n. take n (item ∷ items)) one_more

module _ {S : Type 0} {D : Type 0} {E : Type 0} (b : Backend S D E) where
  -- for itr.Next() { ... }, with at most `calls` calls
  unfoldable pub collect : ℕ → ℕ → Iterator → S → Option (List Item × Iterator)
  unfolding next_string_key
  collect zero fuel itr s = none
  collect (suc calls) fuel itr s = elim (next_string_key b fuel itr s) [
    | none ↦ none
    | some (false, last) ↦ some ([], last)
    | some (true, after) ↦ elim (collect calls fuel after s) [
      | none ↦ none
      | some (items, last) ↦ some ((after.current_key, after.current_value) ∷ items, last)
    ]
  ]

  module _ (index_name : Text) (limit : Option ℕ) (s : S) where
    limited_next :
        (fuel : ℕ) (itr : Iterator)
        → 0 < fuel
        → given_all itr.limit itr.given_until_now ≡ true
        → next_string_key b fuel itr s ≡ some (false, itr)
    unfolding next_string_key
    limited_next zero itr lt h = ground arith
    limited_next (suc fuel) itr lt h = rw (next_string_key, h) refl

    -- It ends with the leaves to come, up to the limit.
    pub collect-items :
        (calls fuel : ℕ) (itr : Iterator) (items : List Item) (n : ℕ)
        → length items < calls
        → n < fuel
        → Over b index_name limit s itr
        → StackLists b index_name s itr.manifest_stack items n
        → (last : Iterator) × (collect calls fuel itr s
            ≡ some (within limit itr.given_until_now items, last))
    unfolding collect
    collect-items zero fuel itr items n enough lt over lists = ground arith
    collect-items (suc calls) fuel itr items n enough lt over lists =
        elim (Bool-cases (given_all itr.limit itr.given_until_now)) [
          | inl q ↦
              let limited : given_all limit itr.given_until_now ≡ true =
                ap (λ x. given_all x itr.given_until_now) (sym over.limited) ∙ q in
              (
                itr,
                rw
                    (
                      collect,
                      limited_next fuel itr (omega (arith, lt)) q,
                      within_all limit itr.given_until_now items limited,
                    )
                    refl,
              )
          | inr q ↦
              let more : given_all limit itr.given_until_now ≡ false =
                ap (λ x. given_all x itr.given_until_now) (sym over.limited) ∙ q in
              stepped
                (λ itr' items' n' enough' lt' over' lists'.
                  collect-items calls fuel itr' items' n' enough' lt' over' lists')
                items enough more
                (next-Stepped b index_name limit s fuel itr items n lt over q lists)
        ]
      where
        Later : Type 0
        Later =
            (itr' : Iterator) (items' : List Item) (n' : ℕ)
            → length items' < calls
            → n' < fuel
            → Over b index_name limit s itr'
            → StackLists b index_name s itr'.manifest_stack items' n'
            → (last : Iterator) × (collect calls fuel itr' s
                ≡ some (within limit itr'.given_until_now items', last))

        stepped :
            Later
            → (items' : List Item) → length items' < suc calls
            → given_all limit itr.given_until_now ≡ false
            → Stepped b index_name limit s itr items' n (next_string_key b fuel itr s)
            → (last : Iterator) × (collect (suc calls) fuel itr s
                ≡ some (within limit itr.given_until_now items', last))
        stepped ih [] enough more (last, q, error) =
            (last, rw (collect, q, within_nil limit itr.given_until_now) refl)
        stepped ih (item ∷ items') enough more (after, k, q, same, given, over', lists', le) =
            let (last, rest) =
              ih after items' k (omega (arith, enough)) (omega (arith, lt, le)) over' lists' in
            (
              last,
              rw
                  (
                    collect,
                    q,
                    rest,
                    same,
                    given,
                    within_cons limit itr.given_until_now item items' more,
                  )
                  refl,
            )
