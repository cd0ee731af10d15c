-- ===== src/Collection/Tree/Apart.antt =====
-- Put on one index (pkg/collection/index_api.go) and the answers of another.
use fair_os_dfs.Prelude.{
  arith, ℕ, ◌+◌, ◌≡◌, sym, ap, ◌∙◌, Bool, false, [], ◌∷◌, ◌++◌, some, length, append-nil,
}
use fair_os_dfs.Prelude.Result.{ok}
use fair_os_dfs.Prelude.Text.{Text, has_prefix}
use fair_os_dfs.Collection.Manifests.{IndexType, Backend}
use fair_os_dfs.Collection.Manifests.Stored.{IsBackend}
use fair_os_dfs.Collection.Manifests.Frames.{IsSeparate, Kept}
use fair_os_dfs.Collection.Index.{Index, State, put, get}
use fair_os_dfs.Collection.Tree.{Below, Tree-Kept, Reads-Kept, tree_reads}
use fair_os_dfs.Collection.Tree.Outside.{add-Kept}
use fair_os_dfs.Collection.Tree.Puts.{IsIndex, root_get, put_done}

-- Where neither of two names begins with the other, nothing behind the one begins with the other.
has_prefix_apart :
    (m n t : Text) → has_prefix n m ≡ false → has_prefix m n ≡ false → has_prefix (n ++ t) m ≡ false
unfolding has_prefix
has_prefix_apart [] n t p q = ground (arith, p)
has_prefix_apart (x ∷ m) [] t p q = ground (arith, q)
has_prefix_apart (x ∷ m) (y ∷ n) t p q = ground (arith, p, q, has_prefix_apart m n t)

module _ {S : Type 0} {D : Type 0} {E : Type 0} (b : Backend S D E) (laws : IsBackend b)
    (frames : IsSeparate b) where
  -- Over a backend that keeps uploaded blobs under references that are not empty, has the data of
  -- a feed that was written, leaves other feeds and blobs alone, whose JSON keeps a manifest whose
  -- texts are valid UTF-8 and always gives such a manifest, and whose hashes differ for names that
  -- differ, and for two indexes whose trees of manifests are there and neither of whose names
  -- begins with the other, after a Put that succeeds on one of them the tree of the other is there
  -- and Get on it answers every key as before.
  pub put-get_other :
      (idx other : Index) (idx_type : IndexType) (now : ℕ) (key v : Text) (apnd : Bool)
      (st st' : State S)
      → IsIndex b st.files idx.name
      → IsIndex b st.files other.name
      → has_prefix other.name idx.name ≡ false
      → has_prefix idx.name other.name ≡ false
      → put b idx idx_type now key v apnd st ≡ some (ok tt, st')
      → IsIndex b st'.files other.name
        × ((k : Text) → get b other k st'.files ≡ get b other k st.files)
  put-get_other idx other idx_type now key v apnd st st' (m, l, named, t) (o, lo, named_o, to) p q
        h =
      let keeps : (x : Text) → has_prefix x m.name ≡ false → Kept b st.files st'.files x = λ x away.
        add-Kept b laws frames x idx_type now v apnd (length key + 2) m key st st' t away
          (put_done b laws frames idx idx_type now key v apnd st st' m l h) in
      let outside : (x : Text) → has_prefix (other.name ++ x) m.name ≡ false =
        λ x. ap (has_prefix (other.name ++ x)) named ∙ has_prefix_apart idx.name other.name x p q in
      let below : Below b st.files st'.files o.name = λ x c lc.
        keeps (o.name ++ x) (ap (λ y. has_prefix (y ++ x) m.name) named_o ∙ outside x) c lc in
      let root_outside = ap (λ y. has_prefix y m.name) (sym (append-nil other.name)) ∙ outside [] in
      let lo' = keeps other.name root_outside o lo in
      let to' = Tree-Kept b st.files st'.files o to below in
      (
        (o, lo', named_o, to'),
        λ k.
            let (res, reads) = tree_reads b st.files o to k in
            root_get b other st'.files o k res lo' to'
              (Reads-Kept b st.files st'.files o k res reads to below)
            ∙ sym (root_get b other st.files o k res lo to reads),
      )
