-- ===== src/Tests/Memory.antt =====
-- Blobs and feeds in memory, behind the index.
use fair_os_dfs.Prelude.{
  ℕ, arith, ◌≡◌, refl, true, false, List, [], ◌∷◌, ◌++◌, Option, none, some, length, get_elem?,
}
use fair_os_dfs.Prelude.Result.{Result, ok, err}
use fair_os_dfs.Prelude.Text.{Text, text_eq, codes}
use fair_os_dfs.Prelude.Map.{GoMap, find, assign}
use fair_os_dfs.Collection.Manifests.{string_index, Manifest, new_manifest, Backend}
use fair_os_dfs.Collection.Index.{Index, State}
use fair_os_dfs.Collection.Manifests.Stored.{Utf8Names, IsUtf8, IsBackend}
use fair_os_dfs.Collection.Entries.{Entry}
use fair_os_dfs.Prelude.Text.Utf8.{is_utf8, follows, follows_ascii}
use fair_os_dfs.Prelude.{ltb, ltb→lt, Bool-cases, inl, inr, ◌∙◌, subst, if◌then◌else◌}
use fair_os_dfs.Collection.Manifests.{deleted_feed_magic_word}
use fair_os_dfs.Prelude.Map.{find-assign}
use fair_os_dfs.Prelude.Text.{text_eq_refl}
use fair_os_dfs.Prelude.{sym, ap}
use fair_os_dfs.Prelude.{zero, suc}
use fair_os_dfs.Prelude.Result.{err_not_ok, ok_injective}
use fair_os_dfs.Collection.Manifests.Frames.{IsSeparate}

pub data Missing : Type 0 where
  missing_data : Missing

pub record Cloud : Type 0 where
  pub feeds : GoMap Text
  pub blobs : List Manifest

abbrev feed_of : Option Text → Result Missing Text
feed_of none = err missing_data
feed_of (some ref) = ok ref

abbrev blob_of : Option Manifest → Result Missing Manifest
blob_of none = err missing_data
blob_of (some m) = ok m

-- a blob's reference is its number
abbrev blob_at : Text → List Manifest → Option Manifest
blob_at [] blobs = none
blob_at (n ∷ []) blobs = get_elem? blobs n
blob_at (n ∷ k ∷ ns) blobs = none

-- a byte that is not ASCII becomes U+FFFD
replaced : Text → Text
replaced [] = []
replaced (c ∷ cs) = let rest = replaced cs in if ltb c 128 then c ∷ rest else 239 ∷ 191 ∷ 189 ∷ rest

-- what JSON makes of a text
unfoldable json_text : Text → Text
unfolding replaced follows
json_text s = if is_utf8 s then s else replaced s

unfoldable json_entries : List Entry → List Entry
unfolding json_text
json_entries [] = []
json_entries (e ∷ es) = record e { name = json_text e.name } ∷ json_entries es

-- what it makes of a manifest
unfoldable pub json : Manifest → Manifest
unfolding json_text json_entries
json m = record m {
  name = json_text m.name;
  pod_file = json_text m.pod_file;
  entries = json_entries m.entries;
}

replaced_utf8 : (s : Text) → is_utf8 (replaced s) ≡ true
unfolding replaced follows
replaced_utf8 [] = refl
replaced_utf8 (c ∷ s) = elim (Bool-cases (ltb c 128)) [
  | inl q ↦ rw q (follows_ascii c (replaced s) (ltb→lt c 128 q) ∙ replaced_utf8 s)
  | inr q ↦ rw q (replaced_utf8 s)
]

json_text_utf8 : (s : Text) → is_utf8 (json_text s) ≡ true
unfolding json_text
json_text_utf8 s = elim (Bool-cases (is_utf8 s)) [
  | inl q ↦ rw (q, q) refl
  | inr q ↦ rw q (replaced_utf8 s)
]

json_text_keeps : (s : Text) → is_utf8 s ≡ true → json_text s ≡ s
unfolding json_text
json_text_keeps s h = rw h refl

json_entries-Utf8Names : (es : List Entry) → Utf8Names (json_entries es)
unfolding json_entries
json_entries-Utf8Names [] = tt
json_entries-Utf8Names (e ∷ es) = (json_text_utf8 e.name, json_entries-Utf8Names es)

json_entries_keeps : (es : List Entry) → Utf8Names es → json_entries es ≡ es
unfolding json_entries
json_entries_keeps [] h = refl
json_entries_keeps (e ∷ es) h = rw (json_text_keeps e.name h.0, json_entries_keeps es h.1) refl

json-IsUtf8 : (m : Manifest) → IsUtf8 (json m)
unfolding json
json-IsUtf8 m = record {
  name = json_text_utf8 m.name;
  pod_file = json_text_utf8 m.pod_file;
  entries = json_entries-Utf8Names m.entries;
}

json_keeps : (m : Manifest) → IsUtf8 m → json m ≡ m
unfolding json
json_keeps m h =
    rw
      (
        json_text_keeps m.name h.name,
        json_text_keeps m.pod_file h.pod_file,
        json_entries_keeps m.entries h.entries,
      )
      refl

abbrev pub memory : Backend Cloud Manifest Missing
memory = record {
  read_only = false;
  hash = λ name. name;
  feed_data = λ topic s. feed_of (find topic s.feeds);
  is_deleted_feed = λ e. false;
  create_feed = λ topic ref s. (ok tt, record s { feeds = assign topic ref s.feeds });
  update_feed = λ topic ref s. (ok tt, record s { feeds = assign topic ref s.feeds });
  upload = λ m s. (ok (length s.blobs ∷ []), record s { blobs = s.blobs ++ m ∷ [] });
  download = λ ref s. blob_of (blob_at ref s.blobs);
  marshal = λ m. m;
  unmarshal = λ m. ok (json m);
}

abbrev pub index : Index
index = record {
  name = codes "pod";
  mutable_index = true;
  index_type = string_index;
  pod_file = [];
}

abbrev pub cloud : Cloud
cloud = record {
  feeds = (codes "pod", 0 ∷ []) ∷ [];
  blobs = new_manifest (codes "pod") 1 string_index true ∷ [];
}

abbrev pub empty_state : State Cloud
empty_state = record { count = 0; files = cloud }

last_blob :
    (blobs : List Manifest) (m : Manifest) → get_elem? (blobs ++ m ∷ []) (length blobs) ≡ some m
last_blob [] m = refl
last_blob (x ∷ blobs) m = last_blob blobs m

uploaded :
    (m : Manifest) (s s' : Cloud) (ref : Text)
    → memory.upload m s ≡ (ok ref, s')
    → (memory.download ref s' ≡ ok m)
      × (text_eq ref [] ≡ false)
      × (text_eq ref deleted_feed_magic_word ≡ false)
unfolding text_eq
uploaded m s s' ref h =
    let at : Result Missing Text × Cloud → Text = λ r. elim r.0 [ err e ↦ [] | ok ref ↦ ref ] in
    let here : length s.blobs ∷ [] ≡ ref = ap at h in
    let there = ap (λ (r : Result Missing Text × Cloud). r.1) h in
    rw (sym here, sym there) (ap blob_of (last_blob s.blobs m), refl, ground arith)

wrote :
    (topic ref : Text) (s s' : Cloud)
    → memory.update_feed topic ref s ≡ (ok tt, s')
    → (memory.feed_data topic s' ≡ ok ref)
      × ((r : Text) → memory.download r s' ≡ memory.download r s)
wrote topic ref s s' h =
    let there = ap (λ (r : Result Missing (Unit {0}) × Cloud). r.1) h in
    rw (sym there) (rw (find-assign topic topic ref s.feeds, text_eq_refl topic), λ r. refl)

pub memory-IsBackend : IsBackend memory
memory-IsBackend = record {
  download-upload = uploaded;
  no_magic_blob = λ s. (missing_data, refl);
  data-update = wrote;
  data-create = wrote;
  unmarshal-marshal = λ m h. ap ok (json_keeps m h);
  unmarshal-IsUtf8 = λ d m h. subst IsUtf8 (ok_injective (json d) m h) (json-IsUtf8 d);
}

kept_blob :
    (blobs : List Manifest) (m x : Manifest) (i : ℕ)
    → get_elem? blobs i ≡ some x
    → get_elem? (blobs ++ m ∷ []) i ≡ some x
kept_blob [] m x i h = ground (arith, h)
kept_blob (y ∷ blobs) m x zero h = h
kept_blob (y ∷ blobs) m x (suc i) h = kept_blob blobs m x i h

blob_of-ok : (o : Option Manifest) (x : Manifest) → blob_of o ≡ ok x → o ≡ some x
blob_of-ok none x h = absurd (err_not_ok missing_data x h)
blob_of-ok (some y) x h = ap some (ok_injective y x h)

kept_blob_at :
    (ref : Text) (blobs : List Manifest) (m x : Manifest)
    → blob_of (blob_at ref blobs) ≡ ok x
    → blob_of (blob_at ref (blobs ++ m ∷ [])) ≡ ok x
kept_blob_at [] blobs m x h = h
kept_blob_at (n ∷ []) blobs m x h =
    ap blob_of (kept_blob blobs m x n (blob_of-ok (get_elem? blobs n) x h))
kept_blob_at (n ∷ k ∷ ns) blobs m x h = h

fed_apart :
    (topic ref : Text) (s s' : Cloud)
    → memory.update_feed topic ref s ≡ (ok tt, s')
    → (t : Text) → text_eq topic t ≡ false
    → memory.feed_data t s' ≡ memory.feed_data t s
fed_apart topic ref s s' h t differ =
    let there = ap (λ (r : Result Missing (Unit {0}) × Cloud). r.1) h in
    rw (sym there) (rw (find-assign topic t ref s.feeds, differ) refl)

pub memory-IsSeparate : IsSeparate memory
memory-IsSeparate = record {
  upload-feeds = λ m s s' ref h t.
      let there = ap (λ (r : Result Missing Text × Cloud). r.1) h in rw (sym there) refl;
  upload-blobs = λ m s s' ref h r d had.
      let there = ap (λ (x : Result Missing Text × Cloud). x.1) h in
      rw (sym there) (kept_blob_at r s.blobs m d had);
  update-feeds = fed_apart;
  create-feeds = fed_apart;
  hash-apart = λ m n differ. differ;
}
