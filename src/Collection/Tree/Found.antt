-- ===== src/Collection/Tree/Found.antt =====
-- findManifest (pkg/collection/index_api.go) over the tree behind a manifest.
use fair_os_dfs.Prelude.{
  arith, ℕ, zero, suc, ◌+◌, ◌<◌, ◌≡◌, inl, inr, refl, List, [], ◌∷◌, Option, none, some, length,
}
use fair_os_dfs.Prelude.Result.{Result, ok, err}
use fair_os_dfs.Prelude.Text.{Text}
use fair_os_dfs.Collection.Entries.{Entry, Scan, missing, here, branch, scan}
use fair_os_dfs.Collection.Manifests.{Manifest, IndexError, err_entry_not_found, Backend}
use fair_os_dfs.Collection.Index.{find_manifest, find_in, refs_of}
use fair_os_dfs.Collection.Index.Answers.{behind_shorter}
use fair_os_dfs.Collection.Node.{absent, value, child, look_of}
use fair_os_dfs.Collection.Node.Loops.{found}
use fair_os_dfs.Collection.Node.Children.{found_child, HasChild-named}
use fair_os_dfs.Collection.Tree.{Tree, Reads, Reads-cases, Tree-IsNode, Tree-sub}

-- The answer for what the tree has for a key.
abbrev pub answer : Option (List Text) → Option (Result IndexError (List Text))
answer none = some (err err_entry_not_found)
answer (some refs) = some (ok refs)

scan_missing : (x : Scan) → look_of x ≡ absent → x ≡ missing
scan_missing missing h = refl
scan_missing (here i e) h = ground (arith, h)
scan_missing (branch n r) h = ground (arith, h)

scan_here :
    (x : Scan) (refs : List Text)
    → look_of x ≡ value refs
    → (i : ℕ) × (e : Entry) × (x ≡ here i e) × (e.ref ≡ refs)
scan_here missing refs h = ground (arith, h)
scan_here (here i e) refs h = (i, e, refl, ground (arith, h))
scan_here (branch n r) refs h = ground (arith, h)

scan_branch : (x : Scan) (n r : Text) → look_of x ≡ child n r → x ≡ branch n r
scan_branch missing n r h = ground (arith, h)
scan_branch (here i e) n r h = ground (arith, h)
scan_branch (branch n' r') n r h =
    let name : n' ≡ n = ground (arith, h) in
    let rest : r' ≡ r = ground (arith, h) in rw (name, rest) refl

module _ {S : Type 0} {D : Type 0} {E : Type 0} (b : Backend S D E) (s : S) where
  -- The rest of a key for a child is shorter.
  rest_shorter :
      (m : Manifest) (k n r : Text)
      → Tree b s m
      → found k m.entries ≡ child n r
      → length r < length k
  rest_shorter m k n r t q =
      let (has, parts) = found_child k n r m.entries q in
      behind_shorter n r k (HasChild-named n m.entries (Tree-IsNode b s m t) has) parts

  -- With one byte of fuel for each byte of the key and one more, it answers what the tree has.
  pub find-Reads :
      (fuel : ℕ) (m : Manifest) (k : Text) (res : Option (List Text))
      → length k < fuel
      → Tree b s m
      → Reads b s m k res
      → refs_of b (find_manifest b fuel m k s) ≡ answer res
  unfolding find_manifest
  find-Reads zero m k res lt t reads = ground arith
  find-Reads (suc fuel) m k res lt t reads = elim (Reads-cases b s m k res reads) [
    | inl (q, e) ↦ let at = scan_missing (scan 0 k m.entries) q in rw (find_manifest, at, e) refl
    | inr (inl (refs, q, e)) ↦
        let (i, entry, at, same) = scan_here (scan 0 k m.entries) refs q in
        rw (find_manifest, at, e, same) refl
    | inr (inr (n, r, c, q, l, deeper)) ↦
        let at = scan_branch (scan 0 k m.entries) n r q in
        let shorter = rest_shorter m k n r t q in
        rw (find_manifest, at, l)
          (find-Reads fuel c r res (omega arith) (Tree-sub b s m t k n r c q l) deeper)
  ]

  find_empty :
      (fuel : ℕ) (m : Manifest) (k : Text)
      → 0 < fuel
      → m.entries ≡ []
      → find_manifest b fuel m k s ≡ some (err err_entry_not_found)
  unfolding find_manifest scan
  find_empty zero m k lt q = ground arith
  find_empty (suc fuel) m k lt q = rw q refl

  -- A manifest without entries is not searched.
  pub find_in_lem :
      (m : Manifest) (k : Text) → find_in b m k s ≡ find_manifest b (length k + 2) m k s
  find_in_lem m k = entries_of m.entries refl
    where
      entries_of :
          (es : List Entry)
          → m.entries ≡ es
          → find_in b m k s ≡ find_manifest b (length k + 2) m k s
      entries_of [] q = rw (find_empty (length k + 2) m k (omega arith) q, q) refl
      entries_of (e ∷ es) q = rw q refl
