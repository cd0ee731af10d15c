-- ===== src/Collection/Tree/Puts.antt =====
-- Put and Get (pkg/collection/index_api.go) as updates and reads of one map from keys to references.
use mathlib.Core.Option.{some-injective}
use fair_os_dfs.Prelude.{
  arith, ℕ, ◌+◌, ◌≡◌, inl, inr, refl, sym, ap, ◌∙◌, subst, Bool, true, false, List, [], ◌∷◌, ◌++◌,
  Option, none, some, length, if◌then◌else◌, Bool-cases,
}
use fair_os_dfs.Prelude.Result.{ok}
use fair_os_dfs.Prelude.Text.{Text, text_eq, text_eq_iff}
use fair_os_dfs.Prelude.Text.Utf8.{is_utf8, IsAscii}
use fair_os_dfs.Collection.Manifests.{IndexType, Manifest, new_manifest, Backend}
use fair_os_dfs.Collection.Manifests.Stored.{IsBackend}
use fair_os_dfs.Collection.Manifests.Frames.{IsSeparate}
use fair_os_dfs.Collection.Index.{
  Index, State, put, get, add_or_update_string_entry, seek_manifest_and_entry, refs_of,
  create_index,
}
use fair_os_dfs.Collection.Index.Life.{create-load}
use fair_os_dfs.Collection.Entries.{scan}
use fair_os_dfs.Collection.Tree.{Loads, Tree, tree, Reads, reads_absent, tree_reads}
use fair_os_dfs.Collection.Tree.Added.{add-Outcome, failed_not_done}
use fair_os_dfs.Collection.Tree.Found.{answer, find-Reads, find_in_lem}

-- Every key is ASCII.
abbrev pub AsciiKeys : List (Text × Text) → Type 0
AsciiKeys [] = Unit
AsciiKeys ((key, v) ∷ writes) = IsAscii key × AsciiKeys writes

-- The map after some keys have got new values.
unfoldable pub replay : (Text → Option (List Text)) → List (Text × Text) → Text → Option (List Text)
replay map [] k = map k
replay map ((key, v) ∷ writes) k =
    replay (λ x. if text_eq key x then some (v ∷ []) else map x) writes k

module _ {S : Type 0} {D : Type 0} {E : Type 0} (b : Backend S D E) where
  -- Calls of Put that succeed, one after the other, for keys and values.
  pub data Runs (idx : Index) : State S → List (Text × Text) → State S → Type 0 where
    start : {st : State S} → Runs idx st [] st
    step :
        {st st' st'' : State S} {writes : List (Text × Text)} (idx_type : IndexType) (now : ℕ)
        (key v : Text)
        → put b idx idx_type now key v false st ≡ some (ok tt, st')
        → Runs idx st' writes st''
        → Runs idx st ((key, v) ∷ writes) st''

  -- A manifest of the name is there under it, with its tree behind it.
  abbrev pub IsIndex : S → Text → Type 0
  IsIndex s name = (m : Manifest) × Loads b s name m × (m.name ≡ name) × Tree b s m

  -- What Get answers for every key.
  abbrev pub Answers : Index → S → (Text → Option (List Text)) → Type 0
  Answers idx s map = (k : Text) → get b idx k s ≡ answer (map k)

  pub root_get :
      (idx : Index) (s : S) (m : Manifest) (k : Text) (res : Option (List Text))
      → Loads b s idx.name m
      → Tree b s m
      → Reads b s m k res
      → get b idx k s ≡ answer res
  unfolding get seek_manifest_and_entry
  root_get idx s m k res l t reads =
      rw (get, seek_manifest_and_entry, l)
        (ap (refs_of b) (find_in_lem b s m k)
          ∙ find-Reads b s (length k + 2) m k res (omega arith) t reads)

  -- There is an answer for every key.
  pub get-Answers :
      (idx : Index) (s : S)
      → IsIndex s idx.name
      → (map : (Text → Option (List Text))) × Answers idx s map
  get-Answers idx s (m, l, named, t) = (
    λ k. (tree_reads b s m t k).0,
    λ k. let (res, reads) = tree_reads b s m t k in root_get idx s m k res l t reads,
  )

  module _ (laws : IsBackend b) (frames : IsSeparate b) where
    pub put_done :
        (idx : Index) (idx_type : IndexType) (now : ℕ) (key v : Text) (apnd : Bool)
        (st st' : State S) (m : Manifest)
        → Loads b st.files idx.name m
        → put b idx idx_type now key v apnd st ≡ some (ok tt, st')
        → add_or_update_string_entry b idx_type now v apnd (length key + 2) m key st
          ≡ some (ok tt, st')
    unfolding put
    put_done idx idx_type now key v apnd st st' m l h = elim (Bool-cases b.read_only) [
      | inl q ↦ failed_not_done b laws frames _ st st' (some-injective _ _ (rw (put, q) at h))
      | inr q ↦ elim (Bool-cases idx.mutable_index) [
        | inr r ↦ failed_not_done b laws frames _ st st' (some-injective _ _ (rw (put, q, r) at h))
        | inl r ↦ rw (put, q, r, l) at h
      ]
    ]

    -- Over a backend that keeps uploaded blobs under references that are not empty, has the data
    -- of a feed that was written, leaves other feeds and blobs alone, whose JSON keeps a manifest
    -- whose texts are valid UTF-8 and always gives such a manifest, and whose hashes differ for
    -- names that differ, for an index whose tree of manifests is there, each with its entries in
    -- order, after a Put of an ASCII key that succeeds, with or without append, the tree is there
    -- again, Get answers the key with references, which are the value alone unless Put appends,
    -- and Get answers every other key as before.
    pub put-get :
        (idx : Index) (idx_type : IndexType) (now : ℕ) (key v : Text) (apnd : Bool)
        (st st' : State S)
        → IsIndex st.files idx.name
        → IsAscii key
        → put b idx idx_type now key v apnd st ≡ some (ok tt, st')
        → IsIndex st'.files idx.name
          × ((refs : List Text) × (apnd ≡ false → refs ≡ v ∷ [])
              × ((k : Text)
                  → get b idx k st'.files
                    ≡ (if text_eq key k then some (ok refs) else get b idx k st.files)))
    put-get idx idx_type now key v apnd st st' (m, l, named, t) ascii h =
        let here = subst (λ x. Loads b st.files x m) (sym named) l in
        let (refs, replaces, e) =
          add-Outcome b laws frames idx_type now v apnd (length key + 2) m key st st' t here ascii
            (put_done idx idx_type now key v apnd st st' m l h) in
        let l' = subst (λ x. Loads b st'.files x e.after) named e.loads in
        (
          (e.after, l', e.same_name ∙ named, e.valid),
          (
            refs,
            replaces,
            λ k. elim (Bool-cases (text_eq key k)) [
              | inl q ↦
                  let reads =
                    subst (λ x. Reads b st'.files e.after x (some refs)) ((text_eq_iff key k).0 q)
                      e.new in
                  rw q (root_get idx st'.files e.after k (some refs) l' e.valid reads)
              | inr q ↦
                  let (res, reads) = tree_reads b st.files m t k in
                  rw q (
                    root_get idx st'.files e.after k res l' e.valid (e.old k res q reads)
                    ∙ sym (root_get idx st.files m k res l t reads))
            ],
          ),
        )

    put-Answers :
        (idx : Index) (idx_type : IndexType) (now : ℕ) (key v : Text) (st st' : State S)
        (map : Text → Option (List Text))
        → IsIndex st.files idx.name
        → Answers idx st.files map
        → IsAscii key
        → put b idx idx_type now key v false st ≡ some (ok tt, st')
        → IsIndex st'.files idx.name
          × Answers idx st'.files (λ x. if text_eq key x then some (v ∷ []) else map x)
    put-Answers idx idx_type now key v st st' map valid answers ascii h =
        let (valid', (refs, replaces, gets)) =
          put-get idx idx_type now key v false st st' valid ascii h in
        (
          valid',
          λ k. elim (Bool-cases (text_eq key k)) [
            | inl q ↦ gets k ∙ rw (q, replaces refl) refl
            | inr q ↦ gets k ∙ rw q (answers k)
          ],
        )

    runs-Answers :
        (idx : Index) (st st' : State S) (writes : List (Text × Text))
        (map : Text → Option (List Text))
        → IsIndex st.files idx.name
        → Answers idx st.files map
        → AsciiKeys writes
        → Runs idx st writes st'
        → IsIndex st'.files idx.name × Answers idx st'.files (replay map writes)
    unfolding replay
    runs-Answers idx st st' writes map valid answers ascii start = (valid, answers)
    runs-Answers idx st st' writes map valid answers ascii
          (step {st' = st1} {writes = ws} idx_type now key v h runs) =
        let (valid1, answers1) =
          put-Answers idx idx_type now key v st st1 map valid answers ascii.0 h in
        runs-Answers idx st1 st' ws _ valid1 answers1 ascii.1 runs

    create-Answers :
        (pod collection name : Text) (index_type : IndexType) (mutable_index : Bool) (now : ℕ)
        (idx : Index) (s s' : S)
        → idx.name ≡ pod ++ collection ++ name
        → is_utf8 (pod ++ collection ++ name) ≡ true
        → create_index b pod collection name index_type mutable_index now s ≡ (ok tt, s')
        → IsIndex s' idx.name × Answers idx s' (λ k. none)
    unfolding new_manifest scan
    create-Answers pod collection name index_type mutable_index now idx s s' same text h =
        let full = pod ++ collection ++ name in
        let m = new_manifest full now index_type mutable_index in
        let l = create-load b laws pod collection name index_type mutable_index now s s' h text in
        let l' = subst (λ x. Loads b s' x m) (sym same) l in
        let t : Tree b s' m =
          tree tt (λ k n r q. ground (arith, q)) (λ k n r c q. ground (arith, q)) in
        ((m, l', sym same, t), λ k. root_get idx s' m k none l' t (reads_absent refl))

    -- Over a backend that keeps uploaded blobs under references that are not empty, has the data
    -- of a feed that was written, leaves other feeds and blobs alone, whose JSON keeps a manifest
    -- whose texts are valid UTF-8 and always gives such a manifest, and whose hashes differ for
    -- names that differ, after CreateIndex with names that are valid UTF-8 when they are joined,
    -- and any calls of Put without append with ASCII keys, all of them successful, on a handle of
    -- the index, Get answers every key as a map does that begins empty and is updated by the same
    -- keys and values: with the last value put, or that the entry is not found.
    pub create-puts-get :
        (pod collection name : Text) (index_type : IndexType) (mutable_index : Bool) (now : ℕ)
        (idx : Index) (s : S) (st st' : State S) (writes : List (Text × Text))
        → idx.name ≡ pod ++ collection ++ name
        → is_utf8 (pod ++ collection ++ name) ≡ true
        → AsciiKeys writes
        → create_index b pod collection name index_type mutable_index now s ≡ (ok tt, st.files)
        → Runs idx st writes st'
        → (k : Text) → get b idx k st'.files ≡ answer (replay (λ x. none) writes k)
    create-puts-get pod collection name index_type mutable_index now idx s st st' writes same text
          ascii h runs =
        let (valid, answers) =
          create-Answers pod collection name index_type mutable_index now idx s st.files same text
            h in
        (runs-Answers idx st st' writes (λ x. none) valid answers ascii runs).1
