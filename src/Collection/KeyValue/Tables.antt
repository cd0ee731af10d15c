-- ===== src/Collection/KeyValue/Tables.antt =====
-- The file that lists the key-value tables (LoadKVTables and storeKVTables of pkg/collection/kv.go).
use fair_os_dfs.Prelude.{
  arith, ℕ, ◌≡◌, ◌⊎◌, inl, inr, refl, sym, ap, ◌∙◌, subst, Bool, true, false, List, [], ◌∷◌, ◌++◌,
  Option, none, some, ◌==◌, ==_refl, if◌then◌else◌, Bool-cases,
}
use fair_os_dfs.Prelude.Result.{Result, ok, err, err_not_ok}
use fair_os_dfs.Prelude.Text.{Text, text_eq, text_eq_iff}
use fair_os_dfs.Prelude.Map.{GoMap, find, assign, find-assign}
use fair_os_dfs.Collection.Manifests.{Backend, deleted_feed_magic_word}
use fair_os_dfs.Collection.Manifests.Stored.{IsBackend}
use fair_os_dfs.Collection.KeyValue.{
  KeyValue, of_call, kv_file, split_at, join_by, load_lines, parse_tables, print_tables, Answer,
  load_kv_tables, told, store_kv_tables,
}

abbrev pub NoByte : ℕ → Text → Type 0
NoByte c [] = Unit
NoByte c (x ∷ xs) = ((x == c) ≡ false) × NoByte c xs

abbrev pub AllWithout : ℕ → List Text → Type 0
AllWithout c [] = Unit
AllWithout c (t ∷ ts) = NoByte c t × AllWithout c ts

-- There is a value.
abbrev pub HasValue : List Text → Type 0
HasValue [] = ⊥
HasValue (v ∷ vs) = Unit

-- Names that are given once and values, at least one each, without a comma or a newline.
abbrev pub IsPlain : GoMap (List Text) → Type 0
IsPlain [] = Unit
IsPlain ((name, values) ∷ tables) =
    NoByte b',' name
    × NoByte b'\n' name
    × HasValue values
    × AllWithout b',' values
    × AllWithout b'\n' values
    × (find name tables ≡ none)
    × IsPlain tables

NoByte-append : (c : ℕ) (s t : Text) → NoByte c s → NoByte c t → NoByte c (s ++ t)
NoByte-append c [] t p q = q
NoByte-append c (x ∷ s) t p q = (p.0, NoByte-append c s t p.1 q)

NoByte-join :
    (c d : ℕ) (ts : List Text) → (d == c) ≡ false → AllWithout c ts → NoByte c (join_by d ts)
unfolding join_by
NoByte-join c d [] differ h = tt
NoByte-join c d (t ∷ []) differ h = h.0
NoByte-join c d (t ∷ u ∷ ts) differ h =
    NoByte-append c t (d ∷ join_by d (u ∷ ts)) h.0 (differ, NoByte-join c d (u ∷ ts) differ h.1)

split_at-NoByte : (c : ℕ) (s : Text) → NoByte c s → split_at c s ≡ (s, [])
unfolding split_at
split_at-NoByte c [] h = refl
split_at-NoByte c (x ∷ s) h = rw (split_at-NoByte c s h.1, h.0) refl

split_at-append :
    (c : ℕ) (s r : Text)
    → NoByte c s
    → split_at c (s ++ c ∷ r) ≡ (s, (split_at c r).0 ∷ (split_at c r).1)
unfolding split_at
split_at-append c [] r h = rw (==_refl c) refl
split_at-append c (x ∷ s) r h = rw (split_at-append c s r h.1, h.0) refl

split_at-join :
    (c : ℕ) (v : Text) (vs : List Text)
    → AllWithout c (v ∷ vs)
    → split_at c (join_by c (v ∷ vs)) ≡ (v, vs)
unfolding join_by
split_at-join c v [] h = split_at-NoByte c v h.0
split_at-join c v (u ∷ vs) h =
    split_at-append c v (join_by c (u ∷ vs)) h.0
    ∙ ap (λ x. (v, x.0 ∷ x.1)) (split_at-join c u vs h.1)

assign_all : GoMap (List Text) → GoMap (List Text) → GoMap (List Text)
assign_all [] acc = acc
assign_all ((name, values) ∷ tables) acc = assign_all tables (assign name values acc)

abbrev first_of : Option (List Text) → Option (List Text) → Option (List Text)
first_of none o = o
first_of (some v) o = some v

find-assign_all :
    (k : Text) (tables acc : GoMap (List Text))
    → IsPlain tables
    → find k (assign_all tables acc) ≡ first_of (find k tables) (find k acc)
unfolding assign_all find
find-assign_all k [] acc h = refl
find-assign_all k ((name, values) ∷ tables) acc (c, n, has, cs, ns, once, later) =
    find-assign_all k tables (assign name values acc) later
    ∙ ap (first_of (find k tables)) (find-assign name k values acc)
    ∙ cases (Bool-cases (text_eq name k))
  where
    cases :
        (text_eq name k ≡ true) ⊎ (text_eq name k ≡ false)
        → first_of (find k tables) (if text_eq name k then some values else find k acc)
          ≡ first_of (if text_eq name k then some values else find k tables) (find k acc)
    cases (inr q) = rw q refl
    cases (inl q) =
        let gone : find k tables ≡ none =
          ap (λ x. find x tables) (sym ((text_eq_iff name k).0 q)) ∙ once in
        rw (q, gone) refl

load_printed :
    (tables acc : GoMap (List Text))
    → IsPlain tables
    → load_lines
        (split_at b'\n' (print_tables tables)).0
        (split_at b'\n' (print_tables tables)).1
        acc
      ≡ assign_all tables acc
unfolding load_lines print_tables split_at assign_all
load_printed [] acc h = refl
load_printed ((name, []) ∷ tables) acc h = absurd h.2
load_printed ((name, v ∷ vs) ∷ tables) acc (c, n, has, cs, ns, once, later) =
    let line : Text = name ++ b',' ∷ join_by b',' (v ∷ vs) in
    let rest : Text = print_tables tables in
    let plain : NoByte b'\n' line =
      NoByte-append b'\n' name (b',' ∷ join_by b',' (v ∷ vs)) n
        (refl, NoByte-join b'\n' b',' (v ∷ vs) refl ns) in
    let parted : split_at b',' line ≡ (name, v ∷ vs) =
      split_at-append b',' name (join_by b',' (v ∷ vs)) c
      ∙ ap (λ x. (name, x.0 ∷ x.1)) (split_at-join b',' v vs cs) in
    ap (λ x. load_lines x.0 x.1 acc) (split_at-append b'\n' line rest plain)
    ∙ ap (λ x. load_lines (split_at b'\n' rest).0 (split_at b'\n' rest).1 (assign x.0 x.1 acc))
        parted
    ∙ load_printed tables (assign name (v ∷ vs) acc) later

pub parse_tables-print_tables :
    (tables : GoMap (List Text))
    → IsPlain tables
    → (k : Text) → find k (parse_tables (print_tables tables)) ≡ find k tables
unfolding parse_tables find
parse_tables-print_tables tables h k =
    ap (find k) (load_printed tables [] h) ∙ find-assign_all k tables [] h ∙ last (find k tables)
  where
    last : (o : Option (List Text)) → first_of o none ≡ o
    last none = refl
    last (some v) = refl

module _ {S : Type 0} {D : Type 0} {E : Type 0} (b : Backend S D E) (laws : IsBackend b)
    (pod_name : Text) (is_missing_feed : E → Bool) where
  -- The word of a deleted feed lists no table.
  stored_text :
      (tables : GoMap (List Text))
      → IsPlain tables
      → (k : Text)
      → find k (
          parse_tables (
            if text_eq (print_tables tables) []
            then deleted_feed_magic_word
            else print_tables tables))
        ≡ find k tables
  unfolding parse_tables split_at load_lines find print_tables text_eq
  stored_text tables h k = elim (Bool-cases (text_eq (print_tables tables) [])) [
    | inr q ↦ rw q (parse_tables-print_tables tables h k)
    | inl q ↦ rw q (no_tables tables q)
  ]
    where
      no_tables :
          (ts : GoMap (List Text))
          → text_eq (print_tables ts) [] ≡ true
          → find k (parse_tables deleted_feed_magic_word) ≡ find k ts
      no_tables [] q = refl
      no_tables (([], values) ∷ ts) q = ground (arith, q)
      no_tables ((x ∷ name, values) ∷ ts) q = ground (arith, q)

  -- Over a backend that keeps uploaded blobs under references that are not empty, has the data of
  -- a feed that was written, and whose JSON keeps a manifest whose texts are valid UTF-8 and
  -- always gives such a manifest, after storeKVTables has succeeded for tables whose names are
  -- given once, with at least one value each, and no comma or newline in either, LoadKVTables
  -- gives a map with the same values for every name.
  pub store-load_kv_tables :
      (tables : GoMap (List Text)) (kv kv' : KeyValue S)
      → IsPlain tables
      → store_kv_tables b pod_name is_missing_feed tables kv ≡ (ok tt, kv')
      → (loaded : GoMap (List Text)) × (load_kv_tables b pod_name is_missing_feed kv'.files
          ≡ ok loaded)
        × ((k : Text) → find k loaded ≡ find k tables)
  unfolding store_kv_tables load_kv_tables
  store-load_kv_tables tables kv kv' h done =
      written (b.update_feed (b.hash kv_file) text kv.files) refl done
    where
      text : Text
      text =
          if text_eq (print_tables tables) [] then deleted_feed_magic_word else print_tables tables

      Goal : KeyValue S → Type 0
      Goal after =
          (loaded : GoMap (List Text)) × (load_kv_tables b pod_name is_missing_feed after.files
            ≡ ok loaded)
          × ((k : Text) → find k loaded ≡ find k tables)

      written :
          (u : Result E (Unit {0}) × S)
          → b.update_feed (b.hash kv_file) text kv.files ≡ u
          → told b pod_name is_missing_feed u kv ≡ (ok tt, kv')
          → Goal kv'
      written (err e, s) q done = absurd (err_not_ok (of_call e) tt (ap (λ x. x.0) done))
      written (ok t, s) q done =
          let reads = (laws.data-update (b.hash kv_file) text kv.files s q).0 in
          subst Goal (ap (λ (x : Answer b pod_name is_missing_feed (Unit {0})). x.1) done)
            (parse_tables text, rw (load_kv_tables, reads) refl, λ k. stored_text tables h k)
