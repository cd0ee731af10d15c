-- ===== src/Collection/Index/Answers.antt =====
-- The recursion of addOrUpdateStringEntry (pkg/collection/index_api.go) comes to an end.
use fair_os_dfs.Prelude.{
  ℕ, zero, suc, ◌+◌, ◌≡◌, ◌<◌, inl, inr, refl, sym, subst, Bool, true, false, not, List, [], ◌∷◌,
  ◌++◌, Option, none, some, arith, if◌then◌else◌, Bool-cases, length, length-append,
}
use fair_os_dfs.Prelude.Result.{Result, ok, err}
use fair_os_dfs.Prelude.Text.{Text, text_eq}
use fair_os_dfs.Collection.Entries.{
  EType, leaf_entry, intermediate_entry, Entry, Change, unchanged, updated, divided, descends,
  behind, change_intermediate, change, longest_common_prefix, common_prefix,
}
use fair_os_dfs.Collection.Manifests.{IndexType, Manifest, IndexError, Backend, load_manifest}
use fair_os_dfs.Collection.Node.Prefix.{common_prefix-IsCommon}
use fair_os_dfs.Collection.Index.{Index, State, add_or_update_string_entry, put, plan}

-- A child is entered with a shorter rest of the key.
abbrev Shorter : Text → Change → Type 0
Shorter key unchanged = Unit {0}
Shorter key (updated es) = Unit
Shorter key (divided es prefix new) = Unit
Shorter key (descends name rest) = length rest < length key

behind-Shorter : (key : Text) (e : Entry) (c : Change) → Shorter key c → Shorter key (behind e c)
behind-Shorter key e unchanged h = tt
behind-Shorter key e (updated es) h = tt
behind-Shorter key e (divided es prefix new) h = tt
behind-Shorter key e (descends name rest) h = h

intermediate-Shorter :
    (key value : Text) (e : Entry) (es : List Entry) (prefix s1 s2 : Text) (later : Change)
    → length s2 < length key
    → Shorter key later
    → Shorter key (change_intermediate key value e es prefix s1 s2 later)
unfolding change_intermediate text_eq
intermediate-Shorter key value e es prefix [] [] later lt h = lt
intermediate-Shorter key value e es prefix [] (y ∷ s2) later lt h = lt
intermediate-Shorter key value e es prefix (x ∷ s1) [] later lt h = tt
intermediate-Shorter key value e es prefix (x ∷ s1) (y ∷ s2) later lt h = tt

pub behind_shorter : (p s key : Text) → text_eq p [] ≡ false → p ++ s ≡ key → length s < length key
unfolding text_eq
behind_shorter [] s key h q = ground (arith, h)
behind_shorter (x ∷ p) s key h q = rw (sym q) (omega (arith, length-append p s))

-- What longestCommonPrefix leaves of the key is shorter, unless there is no common prefix.
common_shorter :
    (name key : Text)
    → text_eq (longest_common_prefix name key).0 [] ≡ false
    → length (longest_common_prefix name key).2 < length key
unfolding longest_common_prefix text_eq
common_shorter [] key h = ground (arith, h)
common_shorter (x ∷ xs) [] h = ground (arith, h)
common_shorter (x ∷ xs) (y ∷ ys) h =
    let r = common_prefix (x ∷ xs) (y ∷ ys) in
    behind_shorter r.0 r.2 (y ∷ ys) h (common_prefix-IsCommon (x ∷ xs) (y ∷ ys)).second

module _ (key value : Text) (apnd : Bool) where
  round-Shorter :
      (name : Text) (t : EType) (ref : List Text) (es : List Entry)
      → Shorter key (change key value apnd es)
      → Shorter key (change key value apnd ((record { name = name; e_type = t; ref = ref }) ∷ es))
  unfolding change
  round-Shorter name leaf_entry ref es h =
      let e : Entry = record { name = name; e_type = leaf_entry; ref = ref } in
      let later = behind-Shorter key e (change key value apnd es) h in
      elim (Bool-cases (text_eq name key)) [
        | inl q ↦ rw q tt
        | inr q ↦ elim (Bool-cases (text_eq (longest_common_prefix name key).0 [])) [
          | inl r ↦ rw (q, r) later
          | inr r ↦ rw (q, r) tt
        ]
      ]
  round-Shorter name intermediate_entry ref es h =
      let e : Entry = record { name = name; e_type = intermediate_entry; ref = ref } in
      let later = behind-Shorter key e (change key value apnd es) h in
      elim (Bool-cases (text_eq (longest_common_prefix name key).0 [])) [
        | inl r ↦ rw r later
        | inr r ↦
            let c = longest_common_prefix name key in
            rw r (
              intermediate-Shorter key value e es c.0 c.1 c.2 (behind e (change key value apnd es))
                (common_shorter name key r) later)
      ]

  change-Shorter : (es : List Entry) → Shorter key (change key value apnd es)
  unfolding change
  change-Shorter [] = tt
  change-Shorter (e ∷ es) = round-Shorter e.name e.e_type e.ref es (change-Shorter es)

plan-Shorter :
    (key value : Text) (apnd : Bool) (es : List Entry) → Shorter key (plan key value apnd es)
unfolding plan text_eq
plan-Shorter [] value apnd es = tt
plan-Shorter (x ∷ key) value apnd es = change-Shorter (x ∷ key) value apnd es

-- An answer is given.
abbrev pub Answered : {A : Type 0} → Option A → Type 0
Answered none = ⊥
Answered (some x) = Unit

if-Answered :
    {A : Type 0} (c : Bool) (x y : Option A)
    → Answered x
    → Answered y
    → Answered (if c then x else y)
if-Answered true x y h k = h
if-Answered false x y h k = k

module _ {S : Type 0} {D : Type 0} {E : Type 0} (b : Backend S D E) where
  -- One byte of fuel for each byte of the key, and one more.
  pub add-Answered :
      (idx_type : IndexType) (now : ℕ) (value : Text) (apnd : Bool) (fuel : ℕ) (m : Manifest)
      (key : Text) (st : State S)
      → length key < fuel
      → Answered (add_or_update_string_entry b idx_type now value apnd fuel m key st)
  unfolding add_or_update_string_entry
  add-Answered idx_type now value apnd zero m key st lt = ground arith
  add-Answered idx_type now value apnd (suc fuel) m key st lt =
      planned (λ child r lt'. add-Answered idx_type now value apnd fuel child r st lt')
        (plan key value apnd m.entries) refl
    where
      Children : Type 0
      Children =
          (child : Manifest) (r : Text)
          → length r < fuel
          → Answered (add_or_update_string_entry b idx_type now value apnd fuel child r st)

      goal : Type 0
      goal = Answered (add_or_update_string_entry b idx_type now value apnd (suc fuel) m key st)

      shorter : (n r : Text) → plan key value apnd m.entries ≡ descends n r → length r < length key
      shorter n r q = subst (Shorter key) q (plan-Shorter key value apnd m.entries)

      entered :
          Children
          → (n r : Text) → plan key value apnd m.entries ≡ descends n r
          → (loaded : Result IndexError Manifest) → load_manifest b (m.name ++ n) st.files ≡ loaded
          → goal
      entered ih n r q (err e) l = rw (add_or_update_string_entry, q, l) tt
      entered ih n r q (ok child) l =
          let lt' = shorter n r q in
          rw (add_or_update_string_entry, q, l) (ih child r (omega arith))

      planned : Children → (c : Change) → plan key value apnd m.entries ≡ c → goal
      planned ih unchanged q = rw (add_or_update_string_entry, q) tt
      planned ih (updated es) q = rw (add_or_update_string_entry, q) tt
      planned ih (divided es p new) q = rw (add_or_update_string_entry, q) tt
      planned ih (descends n r) q = entered ih n r q (load_manifest b (m.name ++ n) st.files) refl

  -- Over any backend and whatever the manifests hold, Put ends within the fuel of the length of
  -- the key and two, with or without an error.
  pub put-Answered :
      (idx : Index) (idx_type : IndexType) (now : ℕ) (key value : Text) (apnd : Bool) (st : State S)
      → Answered (put b idx idx_type now key value apnd st)
  unfolding put
  put-Answered idx idx_type now key value apnd st =
      if-Answered b.read_only _ _ tt
        (if-Answered (not idx.mutable_index) _ _ tt (loaded (load_manifest b idx.name st.files)))
    where
      loaded :
          (l : Result IndexError Manifest)
          → Answered (elim l [
            | err e ↦ some (err e, st)
            | ok m ↦ add_or_update_string_entry b idx_type now value apnd (length key + 2) m key st
          ])
      loaded (err e) = tt
      loaded (ok m) = add-Answered idx_type now value apnd (length key + 2) m key st (omega arith)
