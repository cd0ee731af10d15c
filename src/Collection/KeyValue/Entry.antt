-- ===== src/Collection/KeyValue/Entry.antt =====
-- The keys and values of an open table (pkg/collection/kv.go), and what KVGet answers after KVPut.
use mathlib.Core.Option.{some-injective}
use fair_os_dfs.Prelude.{
  arith, ℕ, ◌≡◌, refl, sym, ap, ◌∙◌, subst, Bool, true, false, List, [], ◌∷◌, Option, none, some,
  if◌then◌else◌,
}
use fair_os_dfs.Prelude.Result.{Result, ok, err, err_not_ok}
use fair_os_dfs.Prelude.Text.Utf8.{IsAscii}
use fair_os_dfs.Prelude.Text.{Text, text_eq, text_eq_refl}
use fair_os_dfs.Prelude.Map.{find, assign, find-assign}
use fair_os_dfs.Collection.Manifests.{
  IndexType, bytes_index, string_index, number_index, IndexError, Backend,
}
use fair_os_dfs.Collection.Manifests.Stored.{IsBackend}
use fair_os_dfs.Collection.Manifests.Frames.{IsSeparate}
use fair_os_dfs.Collection.Index.{State, Done, put, get, delete}
use fair_os_dfs.Collection.Tree.Puts.{IsIndex, put-get}
use fair_os_dfs.Collection.KeyValue.{
  KvTable, KeyValue, KvError, err_read_only, err_kv_table_not_opened, err_kv_key_not_a_number,
  err_kv_invalid_index_type, of_index, of_call, panicked,
}

-- `number_key` is strconv.ParseFloat and the fmt.Sprintf of PutNumber; `blob_of` and `bytes_of` take
-- bytes to a blob and back.
module _ {S : Type 0} {D : Type 0} {E : Type 0} (b : Backend S D E)
    (number_key : Text → Option Text) (blob_of : Text → D) (bytes_of : D → Text) where
  abbrev pub Reply : Type 0 → Type 0
  Reply A = Option (Result (KvError E) A × KeyValue S)

  -- the index of the table has a new count, and the files are others
  abbrev pub with_state : Text → KvTable → State S → KeyValue S → KeyValue S
  with_state name table st kv = record kv {
    open_kv_tables = assign name (record table { count = st.count }) kv.open_kv_tables;
    files = st.files;
  }

  abbrev pub put_written :
      Text → KvTable → KeyValue S → Option (Done b (Unit {0})) → Reply (Unit {0})
  put_written name table kv none = none
  put_written name table kv (some (err e, st)) =
      some (err (of_index e), with_state name table st kv)
  put_written name table kv (some (ok t, st)) = some (ok tt, with_state name table st kv)

  abbrev pub put_key : Text → KvTable → IndexType → ℕ → Text → Text → KeyValue S → Reply (Unit {0})
  put_key name table index_type now key value kv = put_written name table kv (
      put b table.index index_type now key value false
        (record { count = table.count; files = kv.files }))

  abbrev pub put_number : Text → KvTable → ℕ → Option Text → Text → KeyValue S → Reply (Unit {0})
  put_number name table now none value kv = some (err err_kv_key_not_a_number, kv)
  put_number name table now (some key) value kv = put_key name table number_index now key value kv

  abbrev pub put_ref : Text → KvTable → ℕ → Text → Result E Text × S → KeyValue S → Reply (Unit {0})
  put_ref name table now key (err e, s) kv = some (err (of_call e), record kv { files = s })
  put_ref name table now key (ok ref, s) kv =
      put_key name table string_index now key ref (record kv { files = s })

  -- switch table.indexType
  abbrev pub put_typed :
      Text → KvTable → ℕ → Text → Text → KeyValue S → IndexType → Reply (Unit {0})
  put_typed name table now key value kv string_index =
      put_key name table string_index now key value kv
  put_typed name table now key value kv number_index =
      put_number name table now (number_key key) value kv
  put_typed name table now key value kv bytes_index =
      put_ref name table now key (b.upload (blob_of value) kv.files) kv
  put_typed name table now key value kv t = some (err err_kv_invalid_index_type, kv)

  abbrev pub put_opened : Text → ℕ → Text → Text → KeyValue S → Option KvTable → Reply (Unit {0})
  put_opened name now key value kv none = some (err err_kv_table_not_opened, kv)
  put_opened name now key value kv (some table) =
      put_typed name table now key value kv table.index_type

  -- func (kv *KeyValue) KVPut, at the time `now`
  unfoldable pub kv_put : Text → ℕ → Text → Text → KeyValue S → Reply (Unit {0})
  unfolding put
  kv_put name now key value kv =
      if b.read_only
      then some (err err_read_only, kv)
      else put_opened name now key value kv (find name kv.open_kv_tables)

  abbrev pub bytes_read : List Text → Result E D → Result (KvError E) (List Text × Text)
  bytes_read columns (err e) = err (of_call e)
  bytes_read columns (ok blob) = ok (columns, bytes_of blob)

  abbrev pub is_bytes : IndexType → Bool
  is_bytes bytes_index = true
  is_bytes t = false

  abbrev pub first_value :
      KvTable → S → Result IndexError (List Text) → Result (KvError E) (List Text × Text)
  first_value table s (err e) = err (of_index e)
  first_value table s (ok []) = err panicked
  first_value table s (ok (value ∷ values)) =
      if is_bytes table.index_type
      then bytes_read table.columns (b.download value s)
      else ok (table.columns, value)

  abbrev pub got_value :
      KvTable
      → S
      → Option (Result IndexError (List Text))
      → Option (Result (KvError E) (List Text × Text))
  got_value table s none = none
  got_value table s (some r) = some (first_value table s r)

  abbrev pub get_in :
      Text → KeyValue S → Option KvTable → Option (Result (KvError E) (List Text × Text))
  get_in key kv none = some (err err_kv_table_not_opened)
  get_in key kv (some table) = got_value table kv.files (get b table.index key kv.files)

  -- func (kv *KeyValue) KVGet
  unfoldable pub kv_get : Text → Text → KeyValue S → Option (Result (KvError E) (List Text × Text))
  unfolding get
  kv_get name key kv = get_in key kv (find name kv.open_kv_tables)

  abbrev pub deleted_value : Text → KvTable → KeyValue S → Option (Done b (List Text)) → Reply Text
  deleted_value name table kv none = none
  deleted_value name table kv (some (err e, st)) =
      some (err (of_index e), with_state name table st kv)
  deleted_value name table kv (some (ok [], st)) = some (err panicked, with_state name table st kv)
  deleted_value name table kv (some (ok (ref ∷ refs), st)) =
      some (ok ref, with_state name table st kv)

  abbrev pub delete_from : Text → Text → KeyValue S → Option KvTable → Reply Text
  delete_from name key kv none = some (err err_kv_table_not_opened, kv)
  delete_from name key kv (some table) =
      deleted_value name table kv
        (delete b table.index key (record { count = table.count; files = kv.files }))

  -- func (kv *KeyValue) KVDelete
  unfoldable pub kv_delete : Text → Text → KeyValue S → Reply Text
  unfolding delete
  kv_delete name key kv =
      if b.read_only
      then some (err err_read_only, kv)
      else delete_from name key kv (find name kv.open_kv_tables)

  module _ (laws : IsBackend b) (frames : IsSeparate b) (name : Text) (table : KvTable)
      (is_string : table.index_type ≡ string_index) (kv kv' : KeyValue S)
      (is_open : find name kv.open_kv_tables ≡ some table) where
    got_same :
        (count : ℕ) (s s' : S) (r : Option (Result IndexError (List Text)))
        → got_value (record table { count = count }) s' r ≡ got_value table s r
    got_same count s s' none = refl
    got_same count s s' (some (err e)) = refl
    got_same count s s' (some (ok [])) = refl
    got_same count s s' (some (ok (value ∷ values))) = rw is_string refl

    got_files :
        (s s' : S) (r : Option (Result IndexError (List Text)))
        → got_value table s r ≡ got_value table s' r
    got_files s s' none = refl
    got_files s s' (some (err e)) = refl
    got_files s s' (some (ok [])) = refl
    got_files s s' (some (ok (value ∷ values))) = rw is_string refl

    after_get :
        (st : State S) (k : Text)
        → kv_get name k (with_state name table st kv)
          ≡ got_value table st.files (get b table.index k st.files)
    unfolding kv_get
    after_get st k =
        let there : find name (with_state name table st kv).open_kv_tables
            ≡ some (record table { count = st.count }) =
          find-assign name name (record table { count = st.count }) kv.open_kv_tables
          ∙ rw (text_eq_refl name) refl in
        ap (get_in k (with_state name table st kv)) there
        ∙ got_same st.count st.files st.files (get b table.index k st.files)

    before_get :
        (k : Text) → kv_get name k kv ≡ got_value table kv.files (get b table.index k kv.files)
    unfolding kv_get
    before_get k = ap (get_in k kv) is_open

    -- Over a backend that keeps uploaded blobs under references that are not empty, has the data
    -- of a feed that was written, leaves other feeds and blobs alone, whose JSON keeps a manifest
    -- whose texts are valid UTF-8 and always gives such a manifest, and whose hashes differ for
    -- names that differ, for an open table of the type StringIndex whose index has its tree of
    -- manifests, after a KVPut of an ASCII key that succeeds the tree is there again, KVGet
    -- answers the key with the columns of the table and the value, and answers every other key as
    -- before.
    pub kv_put-kv_get :
        (now : ℕ) (key value : Text)
        → IsIndex b kv.files table.index.name
        → IsAscii key
        → kv_put name now key value kv ≡ some (ok tt, kv')
        → IsIndex b kv'.files table.index.name
          × (kv_get name key kv' ≡ some (ok (table.columns, value)))
          × ((k : Text) → text_eq key k ≡ false → kv_get name k kv' ≡ kv_get name k kv)
    unfolding kv_put
    kv_put-kv_get now key value valid ascii h =
        stored (put b table.index string_index now key value false before) refl (
          sym (ap (put_opened name now key value kv) is_open ∙ typed)
          ∙ writable b.read_only (put_opened name now key value kv (find name kv.open_kv_tables)) h)
      where
        before : State S
        before = record { count = table.count; files = kv.files }

        Goal : KeyValue S → Type 0
        Goal after =
            IsIndex b after.files table.index.name
            × (kv_get name key after ≡ some (ok (table.columns, value)))
            × ((k : Text) → text_eq key k ≡ false → kv_get name k after ≡ kv_get name k kv)

        clash :
            (e : KvError E) (after : KeyValue S)
            → ◌≡◌ {A = Reply (Unit {0})} (some (err e, after)) (some (ok tt, kv'))
            → Goal kv'
        clash e after h = absurd (err_not_ok e tt (ap (λ x. x.0) (some-injective _ _ h)))

        writable :
            (c : Bool) (x : Reply (Unit {0}))
            → (if c then some (err err_read_only, kv) else x) ≡ some (ok tt, kv')
            → x ≡ some (ok tt, kv')
        writable true x h =
            absurd (err_not_ok err_read_only tt (ap (λ y. y.0) (some-injective _ _ h)))
        writable false x h = h

        typed :
            put_opened name now key value kv (some table)
            ≡ put_written name table kv (put b table.index string_index now key value false before)
        typed = ap (put_typed name table now key value kv) is_string

        answered :
            (st : State S)
            → put b table.index string_index now key value false before ≡ some (ok tt, st)
            → Goal (with_state name table st kv)
        answered st q =
            let (valid', (refs, replaces, gets)) =
              put-get b laws frames table.index string_index now key value false before st valid
                ascii q in
            let new : get b table.index key st.files ≡ some (ok (value ∷ [])) =
              gets key ∙ rw (text_eq_refl key) (ap (λ x. some (ok x)) (replaces refl)) in
            (
              valid',
              after_get st key ∙ ap (got_value table st.files) new ∙ rw is_string refl,
              λ k differ.
                  after_get st k
                  ∙ ap (got_value table st.files) (gets k ∙ rw differ refl)
                  ∙ got_files st.files kv.files (get b table.index k kv.files)
                  ∙ sym (before_get k),
            )

        stored :
            (o : Option (Done b (Unit {0})))
            → put b table.index string_index now key value false before ≡ o
            → put_written name table kv o ≡ some (ok tt, kv')
            → Goal kv'
        stored none q h = ground (arith, h)
        stored (some (err e, st)) q h = clash (of_index e) (with_state name table st kv) h
        stored (some (ok t, st)) q h =
            subst Goal (ap (λ x. x.1) (some-injective _ _ h)) (answered st q)
