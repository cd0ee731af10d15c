-- ===== src/Collection/Tree/Added.antt =====
-- What addOrUpdateStringEntry leaves of the tree behind a manifest (pkg/collection/index_api.go).
use mathlib.Core.Option.{some-injective}
use fair_os_dfs.Prelude.{
  arith, ℕ, zero, suc, ◌+◌, ◌%◌, ◌^◌, ◌≡◌, refl, sym, ap, subst, Bool, true, false, List, [], ◌∷◌,
  some,
}
use fair_os_dfs.Prelude.Result.{Result, ok, err, err_not_ok}
use fair_os_dfs.Prelude.Text.{Text, text_eq}
use fair_os_dfs.Collection.Entries.{
  Entry, new_leaf, Change, unchanged, updated, divided, descends, change,
}
use fair_os_dfs.Collection.Manifests.{
  IndexType, Manifest, IndexError, Backend, update_manifest, store_manifest,
}
use fair_os_dfs.Collection.Manifests.Stored.{
  Utf8Names, IsUtf8, IsBackend, loaded-IsUtf8, write-load,
}
use fair_os_dfs.Prelude.Text.Utf8.{follows, IsAscii, ascii_utf8, utf8-append}
use fair_os_dfs.Collection.Node.Utf8.{add_entry_sorted-Utf8Names, KeepsUtf8, change-KeepsUtf8}
use fair_os_dfs.Collection.Manifests.Frames.{IsSeparate, store-Kept, update-Kept}
use fair_os_dfs.Collection.Index.{
  State, Done, write_entries, divided_manifest, write_after, plan, add_or_update_string_entry,
}
use fair_os_dfs.Collection.Node.Loops.{
  Replaced, added-Replaced, updated-Replaced, divided-found, divided-apart, descends-found,
  empty-Replaced,
}
use fair_os_dfs.Collection.Node.{IsNode}
use fair_os_dfs.Collection.Tree.{Loads, Tree, Tree-IsNode, Tree-kid, Tree-sub}
use fair_os_dfs.Collection.Tree.Entered.{Entered, replaced-Entered}
use fair_os_dfs.Collection.Tree.Divided.{Division, divided-Entered}
use fair_os_dfs.Collection.Tree.Descended.{descended-Entered}

module _ {S : Type 0} {D : Type 0} {E : Type 0} (b : Backend S D E) (laws : IsBackend b)
    (frames : IsSeparate b) where
  pub failed_not_done :
      {A : Type 0} (e : IndexError) (st st' : State S)
      → ◌≡◌ {A = Done b (Unit {0})} (err e, st) (ok tt, st')
      → A
  failed_not_done e st st' h = absurd (err_not_ok e tt (ap (λ x. x.0) h))

  pub wrote :
      (m : Manifest) (es : List Entry) (st st' : State S)
      → write_entries b m es st ≡ (ok tt, st')
      → update_manifest b (record m { entries = es; count = (st.count + 1) % 2 ^ 64 }) st.files
        ≡ (ok tt, st'.files)
  unfolding write_entries
  wrote m es st st' h = ap (λ (x : Done b (Unit {0})). (x.0, x.1.files)) h

  changed-Entered :
      (m : Manifest) (es : List Entry) (key : Text) (refs : List Text) (st st' : State S)
      → Tree b st.files m
      → Replaced key refs m.entries es
      → IsUtf8 m
      → Utf8Names es
      → write_entries b m es st ≡ (ok tt, st')
      → Entered b st.files st'.files m key refs
  changed-Entered m es key refs st st' t replaced text names h =
      let count = (st.count + 1) % 2 ^ 64 in
      let m' : Manifest = record m { entries = es; count = count } in
      let done = wrote m es st st' h in
      replaced-Entered b st.files st'.files m es count key refs t replaced
        (update-Kept b laws frames m' st.files st'.files done)
        (write-load b laws false m' st.files st'.files done
          (record { name = text.name; pod_file = text.pod_file; entries = names }))

  module _ (idx_type : IndexType) (now : ℕ) where
    parted-Entered :
        (m : Manifest) (es new : List Entry) (p suffix key v : Text) (st st' : State S)
        → Tree b st.files m
        → Division m.entries es new p suffix key v
        → IsUtf8 m
        → Utf8Names es
        → IsAscii p
        → Utf8Names new
        → write_after b m es st.count
            (store_manifest b (divided_manifest b m p idx_type now new) st.files)
          ≡ (ok tt, st')
        → Entered b st.files st'.files m key (v ∷ [])
    unfolding follows
    parted-Entered m es new p suffix key v st st' t division text names ascii new_names h =
        stored (store_manifest b d st.files) refl h
      where
        d : Manifest
        d = divided_manifest b m p idx_type now new

        stored :
            (u : Result IndexError (Unit {0}) × S)
            → store_manifest b d st.files ≡ u
            → write_after b m es st.count u ≡ (ok tt, st')
            → Entered b st.files st'.files m key (v ∷ [])
        stored (err e, files) u h = failed_not_done e _ st' h
        stored (ok x, files) u h =
            let count = (st.count + 1) % 2 ^ 64 in
            let m' : Manifest = record m { entries = es; count = count } in
            let done = wrote m es (record { count = st.count; files = files }) st' h in
            divided-Entered b st.files files st'.files m idx_type now count es new p suffix key v t
              division (store-Kept b laws frames d st.files files u)
              (update-Kept b laws frames m' files st'.files done)
              (write-load b laws true d st.files files u (record {
                name = utf8-append m.name p text.name (ascii_utf8 p ascii);
                pod_file = refl;
                entries = new_names;
              }))
              (write-load b laws false m' files st'.files done
                (record { name = text.name; pod_file = text.pod_file; entries = names }))

    -- What a call that succeeds leaves, for the references that the key then has.
    abbrev pub Outcome : Text → Bool → S → S → Manifest → Text → Type 0
    Outcome v apnd s s' m key =
        (refs : List Text) × (apnd ≡ false → refs ≡ v ∷ []) × Entered b s s' m key refs

    pub add-Outcome :
        (v : Text) (apnd : Bool) (fuel : ℕ) (m : Manifest) (key : Text) (st st' : State S)
        → Tree b st.files m
        → Loads b st.files m.name m
        → IsAscii key
        → add_or_update_string_entry b idx_type now v apnd fuel m key st ≡ some (ok tt, st')
        → Outcome v apnd st.files st'.files m key
    unfolding add_or_update_string_entry plan text_eq follows
    add-Outcome v apnd zero m key st st' t loads ascii h = ground (arith, h)
    add-Outcome v apnd (suc fuel) m [] st st' t loads ascii h = (
      v ∷ [],
      λ q. refl,
      changed-Entered m _ [] (v ∷ []) st st' t
          (empty-Replaced v m.entries (Tree-IsNode b st.files m t))
          (loaded-IsUtf8 b laws m.name m st.files loads)
          (add_entry_sorted-Utf8Names (new_leaf [] (v ∷ [])) m.entries refl
            (loaded-IsUtf8 b laws m.name m st.files loads).entries)
          (some-injective _ _ h),
    )
    add-Outcome v apnd (suc fuel) m (a ∷ rest) st st' t loads ascii h =
        planned (λ c r tc lc ac hc. add-Outcome v apnd fuel c r st st' tc lc ac hc)
          (change (a ∷ rest) v apnd m.entries) refl
      where
        key : Text
        key = a ∷ rest

        Children : Type 0
        Children =
            (c : Manifest) (r : Text)
            → Tree b st.files c
            → Loads b st.files c.name c
            → IsAscii r
            → add_or_update_string_entry b idx_type now v apnd fuel c r st ≡ some (ok tt, st')
            → Outcome v apnd st.files st'.files c r

        node : IsNode m.entries
        node = Tree-IsNode b st.files m t

        text : IsUtf8 m
        text = loaded-IsUtf8 b laws m.name m st.files loads

        keeps : (c : Change) → change key v apnd m.entries ≡ c → KeepsUtf8 c
        keeps c q = subst KeepsUtf8 q (change-KeepsUtf8 key v apnd m.entries ascii text.entries)

        planned :
            Children
            → (c : Change) → change key v apnd m.entries ≡ c
            → Outcome v apnd st.files st'.files m key
        planned ih unchanged q = (
          v ∷ [],
          λ e. refl,
          changed-Entered m _ key (v ∷ []) st st' t (added-Replaced a rest v apnd m.entries node q)
              text
              (add_entry_sorted-Utf8Names (new_leaf key (v ∷ [])) m.entries (ascii_utf8 key ascii)
                text.entries)
              (some-injective _ _ (rw (add_or_update_string_entry, q) at h)),
        )
        planned ih (updated es) q =
            let (refs, replaces, replaced) = updated-Replaced a rest v apnd m.entries node es q in
            (
              refs,
              replaces,
              changed-Entered m es key refs st st' t replaced text (keeps (updated es) q)
                  (some-injective _ _ (rw (add_or_update_string_entry, q) at h)),
            )
        planned ih (divided es p new) q =
            let (suffix, parts, node', new_node, goes, finds, others) =
              divided-found a rest v apnd m.entries node es new p q in
            let (names, prefix_ascii, new_names) = keeps (divided es p new) q in
            let (named, apart) = divided-apart a rest v apnd m.entries node es new p q in
            (
              v ∷ [],
              λ e. refl,
              parted-Entered m es new p suffix key v st st' t
                  (record {
                    named = named;
                    apart = apart;
                    parts = parts;
                    node = node';
                    new_node = new_node;
                    goes = goes;
                    finds = finds;
                    others = others;
                  })
                  text names prefix_ascii new_names
                  (some-injective _ _ (rw (add_or_update_string_entry, q) at h)),
            )
        planned ih (descends n r) q =
            let (goes, parts) = descends-found a rest v apnd m.entries node n r q in
            let (c, l, named) = Tree-kid b st.files m t key n r goes in
            let tc = Tree-sub b st.files m t key n r c goes l in
            let lc = subst (λ x. Loads b st.files x c) (sym named) l in
            let (refs, replaces, entered) =
              ih c r tc lc (keeps (descends n r) q) (rw (add_or_update_string_entry, q, l) at h) in
            (
              refs,
              replaces,
              descended-Entered b st.files st'.files m c n r key refs t loads goes l entered,
            )
