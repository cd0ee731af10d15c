-- ===== src/Dir/Made.antt =====
-- What the steps of MkDir leave in the cache (mkdir.go).
use fair_os_dfs.Prelude.{
  ℕ, ◌<◌, ◌≡◌, inl, inr, refl, sym, ap, ◌∙◌, Bool, true, false, [], ◌∷◌, Option, none, some, ◌==◌,
  if◌then◌else◌, length, length-append, arith, Bool-cases,
}
use fair_os_dfs.Prelude.Result.{Result, ok, err, Result-cases}
use fair_os_dfs.Prelude.Text.{Text, text_eq, text_eq_refl, has_prefix, trim_prefix}
use fair_os_dfs.Prelude.Map.{assign, find-assign}
use fair_os_dfs.Utils.Paths.{path_separator, combine_path_and_file}
use fair_os_dfs.Dir.{
  Inode, index_file_name, Backend, DirError, err_invalid_directory_name,
  err_directory_already_present, err_invalid_file_or_directory_name, failed, Directory, Answer,
  add_to_directory_map, get_dir_from_directory_map, entry_name, total_path, set_inode, get_inode,
  get_from_feed, unmarshal_inode, moved_from_feed, after_upload, added, add_entry_to_dir,
}
use fair_os_dfs.Dir.Make.{new_inode, after_made, after_absent}

-- The path of a child is longer than the directory's.
pub combine_longer :
    (p n : Text)
    → text_eq p [] ≡ false
    → text_eq n [] ≡ false
    → has_prefix n path_separator ≡ false
    → length p < length (combine_path_and_file p n)
unfolding combine_path_and_file text_eq has_prefix trim_prefix
combine_longer [] n named_p named_n plain = ground (arith, named_p)
combine_longer (x ∷ xs) [] named_p named_n plain = ground (arith, named_n)
combine_longer (x ∷ []) (c ∷ cs) named_p named_n plain =
    let other : (c == b'/') ≡ false = ground (arith, plain) in
    elim (Bool-cases (x == b'/')) [
      | inl e ↦ rw (e, other) (omega arith)
      | inr e ↦ rw (e, other) (omega arith)
    ]
combine_longer (x ∷ y ∷ ys) (c ∷ cs) named_p named_n plain =
    let other : (c == b'/') ≡ false = ground (arith, plain) in
    elim (Bool-cases (x == b'/')) [
      | inl e ↦ rw (e, other) (omega (arith, length-append (y ∷ ys) (b'/' ∷ c ∷ cs)))
      | inr e ↦ rw (e, other) (omega (arith, length-append (x ∷ y ∷ ys) (b'/' ∷ c ∷ cs)))
    ]

clash : {E : Type 0} (e : E) (r : Result E (Unit {0})) → r ≡ err e → r ≡ ok tt → ⊥
clash e r h g = ground arith

module _ {S : Type 0} {D : Type 0} {E : Type 0} (b : Backend S D E) where
  refuted :
      {A : Type 0} (e : DirError E) (d d' : Directory S)
      → ◌≡◌ {A = Answer b (Unit {0})} (err e, d) (ok tt, d')
      → A
  refuted e d d' h = absurd (clash e (err e) refl (ap (λ x. x.0) h))

  pub guarded :
      (c : Bool) (e : DirError E) (x : Answer b (Unit {0})) (d d' : Directory S)
      → (if c then (err e, d) else x) ≡ (ok tt, d')
      → (c ≡ false) × (x ≡ (ok tt, d'))
  guarded true e x d d' h = refuted e d d' h
  guarded false e x d d' h = (refl, h)

  pub absent_first :
      (parent name : Text) (mode now later : ℕ) (r : Answer b Inode) (d' : Directory S)
      → after_absent b parent name mode now later r ≡ (ok tt, d')
      → (e : DirError E) × (d2 : Directory S) × (r ≡ (err e, d2))
        × (after_made b parent name later (set_inode b (new_inode parent name mode now) d2)
            ≡ (ok tt, d'))
  absent_first parent name mode now later (ok inode, d) d' h =
      refuted err_directory_already_present d d' h
  absent_first parent name mode now later (err e, d) d' h = (e, d, refl, h)

  pub made_first :
      (parent name : Text) (later : ℕ) (r : Answer b (Unit {0})) (d' : Directory S)
      → after_made b parent name later r ≡ (ok tt, d')
      → (d3 : Directory S) × (r ≡ (ok tt, d3))
        × (add_entry_to_dir b parent name false later d3 ≡ (ok tt, d'))
  made_first parent name later (err e, d) d' h = refuted e d d' h
  made_first parent name later (ok t, d) d' h = (d, refl, h)

  pub set_inode-dir_map :
      (inode : Inode) (d d' : Directory S)
      → set_inode b inode d ≡ (ok tt, d')
      → d'.dir_map ≡ assign (total_path b inode) inode d.dir_map
  unfolding set_inode add_to_directory_map
  set_inode-dir_map inode d d' h =
      elim (Result-cases (b.upload_index (total_path b inode) (b.marshal inode) d.files).0) [
        | inl (t, e) ↦ sym (ap (λ x. x.1.dir_map) (rw (set_inode, e) at h))
        | inr (e', e) ↦ refuted (failed e') _ d' (rw (set_inode, e) at h)
      ]

  -- What a look for an inode leaves in the cache: the inode that was found, or what there was.
  abbrev pub Looked : Text → Directory S → Answer b Inode → Type 0
  Looked path d (err e, d') = d'.dir_map ≡ d.dir_map
  Looked path d (ok inode, d') = get_dir_from_directory_map path d' ≡ some inode

  added_to_map :
      (path : Text) (inode : Inode) (d : Directory S)
      → get_dir_from_directory_map path (add_to_directory_map path inode d) ≡ some inode
  unfolding get_dir_from_directory_map add_to_directory_map
  added_to_map path inode d = rw (find-assign path path inode d.dir_map, text_eq_refl path)

  feed-Looked : (path : Text) (d : Directory S) → Looked path d (get_from_feed b path d)
  unfolding get_from_feed set_inode
  feed-Looked path d = fed (b.feed_data path d.files) refl
    where
      moved :
          (inode : Inode) (d0 : Directory S) (r : Result E (Unit {0})) (d1 : Directory S)
          → d1.dir_map ≡ d0.dir_map
          → Looked path d0 (moved_from_feed b path inode (after_upload b inode r d1))
      moved inode d0 (err e) d1 q = q
      moved inode d0 (ok t) d1 q =
          added_to_map path inode (record (add_to_directory_map (total_path b inode) inode d1) {
            files = b.delete_feed path d1.files;
          })

      parsed :
          (raw : D) (r : Result (DirError E) Inode)
          → b.feed_data path d.files ≡ ok raw
          → unmarshal_inode b raw ≡ r
          → Looked path d (get_from_feed b path d)
      parsed raw (err e) f q = rw (get_from_feed, f, q) refl
      parsed raw (ok inode) f q =
          let written = b.upload_index (total_path b inode) (b.marshal inode) d.files in
          rw (get_from_feed, f, q) (moved inode d written.0 (record d { files = written.1 }) refl)

      fed : (r : Result E D) → b.feed_data path d.files ≡ r → Looked path d (get_from_feed b path d)
      fed (err e) f = rw (get_from_feed, f) refl
      fed (ok raw) f = parsed raw (unmarshal_inode b raw) f refl

  pub get_inode-Looked : (path : Text) (d : Directory S) → Looked path d (get_inode b path d)
  unfolding get_inode
  get_inode-Looked path d = cached (get_dir_from_directory_map path d) refl
    where
      parsed :
          (raw : D) (r : Result (DirError E) Inode)
          → get_dir_from_directory_map path d ≡ none
          → b.download (combine_path_and_file path index_file_name) d.files ≡ ok raw
          → unmarshal_inode b raw ≡ r
          → Looked path d (get_inode b path d)
      parsed raw (err e) q f u = rw (get_inode, q, f, u) refl
      parsed raw (ok inode) q f u = rw (get_inode, q, f, u) (added_to_map path inode d)

      read :
          (r : Result E D)
          → get_dir_from_directory_map path d ≡ none
          → b.download (combine_path_and_file path index_file_name) d.files ≡ r
          → Looked path d (get_inode b path d)
      read (err e) q f = rw (get_inode, q, f) (feed-Looked path d)
      read (ok raw) q f = parsed raw (unmarshal_inode b raw) q f refl

      cached :
          (o : Option Inode)
          → get_dir_from_directory_map path d ≡ o
          → Looked path d (get_inode b path d)
      cached (some inode) q = rw (get_inode, q) q
      cached none q = read (b.download (combine_path_and_file path index_file_name) d.files) q refl

  pub found_inode :
      (path : Text) (inode : Inode) (d : Directory S)
      → get_dir_from_directory_map path d ≡ some inode
      → get_inode b path d ≡ (ok inode, d)
  unfolding get_inode
  found_inode path inode d q = rw (get_inode, q)

  -- AddEntryToDir changes the cache at the directory alone.
  pub added-dir_map :
      (parent item : Text) (now : ℕ) (inode : Inode) (d d' : Directory S)
      → get_dir_from_directory_map parent d ≡ some inode
      → total_path b inode ≡ parent
      → add_entry_to_dir b parent item false now d ≡ (ok tt, d')
      → (let i = added b (entry_name item false) now inode in
          d'.dir_map ≡ assign parent i (assign parent i d.dir_map))
  unfolding add_entry_to_dir add_to_directory_map
  added-dir_map parent item now inode d d' q path h =
      let i = added b (entry_name item false) now inode in
      let (e1, h1) = guarded (text_eq parent []) err_invalid_directory_name _ d d' h in
      let (e2, h2) = guarded (text_eq item []) err_invalid_file_or_directory_name _ d d' h1 in
      set_inode-dir_map i (add_to_directory_map parent i d) d'
        (rw (found_inode parent inode d q) at h2)
      ∙ rw path
