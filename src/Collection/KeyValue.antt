-- ===== src/Collection/KeyValue.antt =====
-- Key-value tables (pkg/collection/kv.go) over the indexes of a pod, and the file that lists them.
pub mod Entry
pub mod Tables
use fair_os_dfs.Prelude.{
  ℕ, zero, suc, ◌+◌, Bool, true, false, not, List, [], ◌∷◌, ◌++◌, Option, none, some, ◌==◌,
  if◌then◌else◌,
}
use fair_os_dfs.Prelude.Result.{Result, ok, err}
use fair_os_dfs.Prelude.Text.{Text, text_eq, codes}
use fair_os_dfs.Prelude.Map.{GoMap, find, assign}
use fair_os_dfs.Prelude.Map
use fair_os_dfs.Collection.Manifests.{
  IndexType, invalid_index, bytes_index, string_index, number_index, map_index, list_index,
  vector_index, IndexError, Backend, deleted_feed_magic_word,
}
use fair_os_dfs.Collection.Types.{show, to_index_type_enum}
use fair_os_dfs.Collection.Index
use fair_os_dfs.Collection.Index.{Index, State, Done, create_index, open_index, delete_index}
use fair_os_dfs.Collection.Iterator.{Iterator, IteratorError}

-- const kvFile, defaultCollectionName, CSVHeaderKey
abbrev pub kv_file : Text
kv_file = codes "key_value_tables"

abbrev pub default_collection_name : Text
default_collection_name = codes "KV"

abbrev pub csv_header_key : Text
csv_header_key = codes "__csv_header__"

-- type KVTable struct, with the count of its index
pub record KvTable : Type 0 where
  pub index : Index
  pub count : ℕ
  pub index_type : IndexType
  pub columns : List Text

-- type KeyValue struct
pub record KeyValue (S : Type 0) : Type 0 where
  pub open_kv_tables : GoMap KvTable
  pub iterator : Option Iterator
  pub files : S

-- the errors of the package that the tables return, those of its calls, and an index out of range
pub data KvError (E : Type 0) : Type 0 where
  err_read_only : KvError E
  err_kv_table_already_present : KvError E
  err_kv_table_not_present : KvError E
  err_kv_table_not_opened : KvError E
  err_kv_key_not_a_number : KvError E
  err_kv_invalid_index_type : KvError E
  err_kv_index_type_not_supported : KvError E
  err_kv_nil_iterator : KvError E
  err_no_more : KvError E
  of_index : IndexError → KvError E
  of_iterator : IteratorError → KvError E
  of_call : E → KvError E
  panicked : KvError E

-- strings.Split at one byte: the first part and the others
unfoldable pub split_at : ℕ → Text → Text × List Text
split_at c [] = ([], [])
split_at c (x ∷ xs) =
    let (first, others) = split_at c xs in
    if x == c then ([], first ∷ others) else (x ∷ first, others)

-- strings.Join with one byte
unfoldable pub join_by : ℕ → List Text → Text
join_by c [] = []
join_by c (t ∷ []) = t
join_by c (t ∷ u ∷ ts) = let rest = join_by c (u ∷ ts) in t ++ c ∷ rest

-- collections[lines[0]] = lines[1:], for each line that ends with a newline
unfoldable pub load_lines : Text → List Text → GoMap (List Text) → GoMap (List Text)
unfolding split_at assign
load_lines line [] tables = tables
load_lines line (next ∷ lines) tables =
    let (name, values) = split_at b',' line in load_lines next lines (assign name values tables)

-- the loop of LoadKVTables
unfoldable pub parse_tables : Text → GoMap (List Text)
unfolding split_at load_lines
parse_tables t = let (line, lines) = split_at b'\n' t in load_lines line lines []

-- the loop of storeKVTables
unfoldable pub print_tables : GoMap (List Text) → Text
unfolding join_by
print_tables [] = []
print_tables ((name, values) ∷ tables) =
    let rest = print_tables tables in (name ++ b',' ∷ join_by b',' values) ++ b'\n' ∷ rest

module _ {S : Type 0} {D : Type 0} {E : Type 0} (b : Backend S D E) (pod_name : Text)
    (is_missing_feed : E → Bool) where
  abbrev pub Answer : Type 0 → Type 0
  Answer A = Result (KvError E) A × KeyValue S

  -- func (kv *KeyValue) LoadKVTables
  unfoldable pub load_kv_tables : S → Result (KvError E) (GoMap (List Text))
  unfolding parse_tables
  load_kv_tables s = elim (b.feed_data (b.hash kv_file) s) [
    | err e ↦ if is_missing_feed e then ok [] else err (of_call e)
    | ok data' ↦ ok (parse_tables data')
  ]

  abbrev pub told : Result E (Unit {0}) × S → KeyValue S → Answer (Unit {0})
  told (err e, s) kv = (err (of_call e), record kv { files = s })
  told (ok t, s) kv = (ok tt, record kv { files = s })

  -- func (kv *KeyValue) storeKVTables
  unfoldable pub store_kv_tables : GoMap (List Text) → KeyValue S → Answer (Unit {0})
  unfolding print_tables
  store_kv_tables tables kv =
      let text = print_tables tables in
      told
        (b.update_feed (b.hash kv_file) (if text_eq text [] then deleted_feed_magic_word else text)
          kv.files)
        kv

  abbrev pub then_store :
      GoMap (List Text) → Result IndexError (Unit {0}) × S → KeyValue S → Answer (Unit {0})
  then_store tables (err e, s) kv = (err (of_index e), record kv { files = s })
  then_store tables (ok t, s) kv = store_kv_tables tables (record kv { files = s })

  abbrev pub create_in :
      Text → IndexType → ℕ → KeyValue S → Result (KvError E) (GoMap (List Text)) → Answer (Unit {0})
  create_in name index_type now kv (err e) = (err e, kv)
  create_in name index_type now kv (ok tables) = elim (find name tables) [
    | some values ↦ (err err_kv_table_already_present, kv)
    | none ↦
        then_store (assign name (show index_type ∷ []) tables)
          (create_index b pod_name default_collection_name name index_type true now kv.files) kv
  ]

  -- func (kv *KeyValue) CreateKVTable, at the time `now`
  unfoldable pub create_kv_table : Text → IndexType → ℕ → KeyValue S → Answer (Unit {0})
  unfolding load_kv_tables store_kv_tables create_index show
  create_kv_table name index_type now kv =
      if b.read_only
      then (err err_read_only, kv)
      else create_in name index_type now kv (load_kv_tables kv.files)

  abbrev pub delete_opened :
      GoMap (List Text) → KeyValue S → Result IndexError (Index × ℕ) → Answer (Unit {0})
  delete_opened tables kv (err e) = (err (of_index e), kv)
  delete_opened tables kv (ok (idx, count)) = then_store tables (delete_index b idx kv.files) kv

  -- the table leaves the open ones when its index is deleted
  abbrev pub delete_open :
      Text → GoMap (List Text) → KeyValue S → Result IndexError (Unit {0}) × S → Answer (Unit {0})
  delete_open name tables kv (err e, s) = (err (of_index e), record kv { files = s })
  delete_open name tables kv (ok t, s) =
      store_kv_tables tables
        (record kv { open_kv_tables = Map.delete name kv.open_kv_tables; files = s })

  abbrev pub delete_in :
      Text → KeyValue S → Result (KvError E) (GoMap (List Text)) → Answer (Unit {0})
  delete_in name kv (err e) = (err e, kv)
  delete_in name kv (ok tables) = elim (find name tables) [
    | none ↦ (err err_kv_table_not_present, kv)
    | some values ↦ elim (find name kv.open_kv_tables) [
      | some table ↦
          delete_open name (Map.delete name tables) kv (delete_index b table.index kv.files)
      | none ↦
          delete_opened (Map.delete name tables) kv
            (open_index b pod_name default_collection_name name kv.files)
    ]
  ]

  -- func (kv *KeyValue) DeleteKVTable
  unfoldable pub delete_kv_table : Text → KeyValue S → Answer (Unit {0})
  unfolding load_kv_tables store_kv_tables delete_index open_index
  delete_kv_table name kv =
      if b.read_only then (err err_read_only, kv) else delete_in name kv (load_kv_tables kv.files)

  -- the columns of the header, if it is there; an empty one panics nowhere, as it is passed over
  abbrev pub columns_of : Result IndexError (List Text) → List Text
  columns_of (err e) = []
  columns_of (ok []) = []
  columns_of (ok (header ∷ refs)) = let (first, others) = split_at b',' header in first ∷ others

  abbrev pub opened_table :
      Text → IndexType → KeyValue S → Result IndexError (Index × ℕ) → Option (Answer (Unit {0}))
  opened_table name index_type kv (err e) = some (err (of_index e), kv)
  opened_table name index_type kv (ok (idx, count)) =
      elim (Index.get b idx csv_header_key kv.files) [
        | none ↦ none
        | some header ↦ some (
          ok tt,
          record kv {
            open_kv_tables =
                assign name
                  (record {
                    index = idx;
                    count = count;
                    index_type = index_type;
                    columns = columns_of header;
                  })
                  kv.open_kv_tables;
          },
        )
      ]

  abbrev pub open_in :
      Text → KeyValue S → Result (KvError E) (GoMap (List Text)) → Option (Answer (Unit {0}))
  open_in name kv (err e) = some (err e, kv)
  open_in name kv (ok tables) = elim (find name tables) [
    | none ↦ some (err err_kv_table_not_present, kv)
    | some [] ↦ some (err panicked, kv)
    | some (value ∷ values) ↦
        opened_table name (to_index_type_enum value) kv
          (open_index b pod_name default_collection_name name kv.files)
  ]

  -- func (kv *KeyValue) OpenKVTable
  unfoldable pub open_kv_table : Text → KeyValue S → Option (Answer (Unit {0}))
  unfolding load_kv_tables open_index Index.get to_index_type_enum split_at
  open_kv_table name kv = open_in name kv (load_kv_tables kv.files)

  -- func (kv *KeyValue) KVCount
  unfoldable pub kv_count : Text → KeyValue S → Result (KvError E) ℕ
  kv_count name kv = elim (find name kv.open_kv_tables) [
    | none ↦ err err_kv_table_not_opened
    | some table ↦ ok table.count
  ]
