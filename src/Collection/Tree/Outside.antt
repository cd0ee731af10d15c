-- ===== src/Collection/Tree/Outside.antt =====
-- addOrUpdateStringEntry keeps the manifests of names that are not behind its own (index_api.go).
use mathlib.Core.Option.{some-injective}
use fair_os_dfs.Prelude.{arith, ℕ, zero, suc, ◌≡◌, refl, ap, ◌∙◌, Bool, false, List, [], ◌∷◌, some}
use fair_os_dfs.Prelude.Result.{Result, ok, err}
use fair_os_dfs.Prelude.Text.{Text, text_eq, has_prefix}
use fair_os_dfs.Collection.Entries.{Entry, Change, unchanged, updated, divided, descends, change}
use fair_os_dfs.Collection.Manifests.{IndexType, Manifest, IndexError, Backend, store_manifest}
use fair_os_dfs.Collection.Manifests.Stored.{IsBackend}
use fair_os_dfs.Collection.Manifests.Frames.{IsSeparate, Kept, store-Kept, update-Kept}
use fair_os_dfs.Collection.Index.{
  State, write_entries, divided_manifest, write_after, plan, add_or_update_string_entry,
}
use fair_os_dfs.Collection.Node.Here.{not_prefix_behind}
use fair_os_dfs.Collection.Node.Loops.{descends-found}
use fair_os_dfs.Collection.Tree.{Tree, Tree-IsNode, Tree-kid, Tree-sub}
use fair_os_dfs.Collection.Tree.Names.{outside_differs}
use fair_os_dfs.Collection.Tree.Added.{failed_not_done, wrote}

module _ {S : Type 0} {D : Type 0} {E : Type 0} (b : Backend S D E) (laws : IsBackend b)
    (frames : IsSeparate b) (n : Text) where
  written-Kept :
      (m : Manifest) (es : List Entry) (st st' : State S)
      → has_prefix n m.name ≡ false
      → write_entries b m es st ≡ (ok tt, st')
      → Kept b st.files st'.files n
  written-Kept m es st st' outside h =
      update-Kept b laws frames _ st.files st'.files (wrote b laws frames m es st st' h) n
        (outside_differs n m.name outside)

  module _ (idx_type : IndexType) (now : ℕ) where
    parted-Kept :
        (m : Manifest) (es new : List Entry) (p : Text) (st st' : State S)
        → has_prefix n m.name ≡ false
        → write_after b m es st.count
            (store_manifest b (divided_manifest b m p idx_type now new) st.files)
          ≡ (ok tt, st')
        → Kept b st.files st'.files n
    parted-Kept m es new p st st' outside h = stored (store_manifest b d st.files) refl h
      where
        d : Manifest
        d = divided_manifest b m p idx_type now new

        stored :
            (u : Result IndexError (Unit {0}) × S)
            → store_manifest b d st.files ≡ u
            → write_after b m es st.count u ≡ (ok tt, st')
            → Kept b st.files st'.files n
        stored (err e, files) u h = failed_not_done b laws frames e _ st' h
        stored (ok x, files) u h = λ c l.
            written-Kept m es (record { count = st.count; files = files }) st' outside h c
              (store-Kept b laws frames d st.files files u n
                (outside_differs n d.name (not_prefix_behind m.name p n outside)) c l)

    -- Whatever the key, the manifest of such a name is there after a call that succeeds.
    pub add-Kept :
        (v : Text) (apnd : Bool) (fuel : ℕ) (m : Manifest) (key : Text) (st st' : State S)
        → Tree b st.files m
        → has_prefix n m.name ≡ false
        → add_or_update_string_entry b idx_type now v apnd fuel m key st ≡ some (ok tt, st')
        → Kept b st.files st'.files n
    unfolding add_or_update_string_entry plan text_eq
    add-Kept v apnd zero m key st st' t outside h = ground (arith, h)
    add-Kept v apnd (suc fuel) m [] st st' t outside h =
        written-Kept m _ st st' outside (some-injective _ _ h)
    add-Kept v apnd (suc fuel) m (a ∷ rest) st st' t outside h =
        planned (λ c r tc oc hc. add-Kept v apnd fuel c r st st' tc oc hc)
          (change key v apnd m.entries) refl
      where
        key : Text
        key = a ∷ rest

        Children : Type 0
        Children =
            (c : Manifest) (r : Text)
            → Tree b st.files c
            → has_prefix n c.name ≡ false
            → add_or_update_string_entry b idx_type now v apnd fuel c r st ≡ some (ok tt, st')
            → Kept b st.files st'.files n

        planned :
            Children → (c : Change) → change key v apnd m.entries ≡ c → Kept b st.files st'.files n
        planned ih unchanged q =
            written-Kept m _ st st' outside
              (some-injective _ _ (rw (add_or_update_string_entry, q) at h))
        planned ih (updated es) q =
            written-Kept m es st st' outside
              (some-injective _ _ (rw (add_or_update_string_entry, q) at h))
        planned ih (divided es p new) q =
            parted-Kept m es new p st st' outside
              (some-injective _ _ (rw (add_or_update_string_entry, q) at h))
        planned ih (descends n' r) q =
            let node = Tree-IsNode b st.files m t in
            let (goes, parts) = descends-found a rest v apnd m.entries node n' r q in
            let (c, l, named) = Tree-kid b st.files m t key n' r goes in
            ih c r (Tree-sub b st.files m t key n' r c goes l)
              (ap (has_prefix n) named ∙ not_prefix_behind m.name n' n outside)
              (rw (add_or_update_string_entry, q, l) at h)
