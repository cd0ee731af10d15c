-- ===== src/Tests/CollectionTests.antt =====
-- Instances for the index, over blobs and feeds in memory.
use fair_os_dfs.Tests.Memory.{
  Cloud, json, memory, index, cloud, empty_state, memory-IsBackend, memory-IsSeparate,
}
use fair_os_dfs.Prelude.{
  ℕ, arith, ◌≡◌, refl, true, false, List, [], ◌∷◌, ◌++◌, Option, none, some, if◌then◌else◌,
}
use fair_os_dfs.Prelude.Result.{Result, ok, err}
use fair_os_dfs.Prelude.Text.{Text, text_eq, codes, has_prefix, strip, trim_prefix}
use fair_os_dfs.Prelude.Filepath.{dir}
use fair_os_dfs.Prelude.Map.{find, assign}
use fair_os_dfs.Collection.Entries.{
  Entry, new_leaf, new_intermediate, change, change_intermediate, longest_common_prefix,
  common_prefix, two_entries, add_entry_sorted, add_loop, same_refs, scan, remove_at,
}
use fair_os_dfs.Collection.Manifests.{
  string_index, Manifest, new_manifest, IndexError, err_no_manifest_found, load_manifest,
  update_manifest, store_manifest,
}
use fair_os_dfs.Collection.Index.{
  Index, State, put, get, delete, plan, add_or_update_string_entry, write_entries, find_manifest,
  seek_manifest_and_entry, delete_branch, delete_entry, remove_branch,
}
use fair_os_dfs.Collection.Manifests.Stored.{IsUtf8, write-load}
use fair_os_dfs.Prelude.Text.Utf8.{is_utf8, follows, IsAscii}
use fair_os_dfs.Collection.Index.Count.{in_memory, count_loop, load_index_and_count, count_index}
use fair_os_dfs.Collection.Node.Removed.{removed-found}
use fair_os_dfs.Collection.Node.{absent}
use fair_os_dfs.Collection.Index.Life.{create-open, create-create, delete-open}
use fair_os_dfs.Collection.Manifests.{bytes_index, err_index_already_present, err_index_not_present}
use fair_os_dfs.Collection.Index.{create_index, open_index, delete_index}
use fair_os_dfs.Collection.Index.Answers.{Answered, put-Answered}
use fair_os_dfs.Collection.Node.{value, child, IsNode}
use fair_os_dfs.Collection.Node.Division.{lift}
use fair_os_dfs.Collection.Node.Loops.{divided-found, found}
use fair_os_dfs.Collection.Tree.Puts.{
  AsciiKeys, IsIndex, Runs, start, step, replay, put-get, create-puts-get,
}
use fair_os_dfs.Collection.Tree.{tree}

abbrev put_text :
    Text
    → Text
    → Option (Result IndexError (Unit {0}) × State Cloud)
    → Option (Result IndexError (Unit {0}) × State Cloud)
put_text key v none = none
put_text key v (some (r, st)) = put memory index string_index 1 key v false st

abbrev get_text :
    Text
    → Option (Result IndexError (Unit {0}) × State Cloud)
    → Option (Result IndexError (List Text))
get_text key none = none
get_text key (some (r, st)) = get memory index key st.files

abbrev delete_text :
    Text
    → Option (Result IndexError (Unit {0}) × State Cloud)
    → Option (Result IndexError (List Text))
delete_text key none = none
delete_text key (some (r, st)) = elim (delete memory index key st) [
  | none ↦ none
  | some (r', st') ↦ some r'
]

abbrev two_keys : Option (Result IndexError (Unit {0}) × State Cloud)
two_keys =
    put_text (codes "abc") (codes "2")
      (put_text (codes "ab") (codes "1") (some (ok tt, empty_state)))

abbrev one_key : Option (Result IndexError (Unit {0}) × State Cloud)
one_key = put_text (codes "ab") (codes "1") (some (ok tt, empty_state))

get_one : get_text (codes "ab") one_key ≡ some (ok (codes "1" ∷ []))
unfolding put get load_manifest json update_manifest store_manifest plan add_or_update_string_entry
    write_entries find_manifest seek_manifest_and_entry change change_intermediate
    longest_common_prefix common_prefix two_entries add_entry_sorted add_loop same_refs scan text_eq
    find assign has_prefix strip trim_prefix new_manifest
get_one = refl

get_two : get_text (codes "abc") two_keys ≡ some (ok (codes "2" ∷ []))
unfolding put get load_manifest json update_manifest store_manifest plan add_or_update_string_entry
    write_entries find_manifest seek_manifest_and_entry change change_intermediate
    longest_common_prefix common_prefix two_entries add_entry_sorted add_loop same_refs scan text_eq
    find assign has_prefix strip trim_prefix new_manifest
get_two = refl

-- The last key of a child manifest cannot be deleted: its parent is looked for under the name ".".
delete_last :
    delete_text (codes "ab") (elim two_keys [
      | none ↦ none
      | some (r, st) ↦ elim (delete memory index (codes "abc") st) [
        | none ↦ none
        | some (r', st') ↦ some (ok tt, st')
      ]
    ])
    ≡ some (err err_no_manifest_found)
unfolding put get delete load_manifest json update_manifest store_manifest plan
    add_or_update_string_entry write_entries find_manifest seek_manifest_and_entry change
    change_intermediate longest_common_prefix common_prefix two_entries add_entry_sorted add_loop
    same_refs scan text_eq find assign has_prefix strip trim_prefix new_manifest delete_branch
    delete_entry remove_branch remove_at dir
delete_last = refl

abbrev entries : List Entry
entries = new_leaf (codes "ab") (codes "1" ∷ []) ∷ new_intermediate (codes "b") [] ∷ []

abbrev divided_entries : List Entry
divided_entries =
    new_intermediate (codes "a") (codes "1" ∷ []) ∷ new_intermediate (codes "b") [] ∷ []

abbrev new_entries : List Entry
new_entries = new_leaf (codes "b") (codes "1" ∷ []) ∷ new_leaf (codes "c") (codes "2" ∷ []) ∷ []

divided-found_example :
    (suffix : Text) × (codes "a" ++ suffix ≡ codes "ac")
    × IsNode divided_entries
    × IsNode new_entries
    × ((k : Text)
        → found k divided_entries ≡ (
            if has_prefix k (codes "a")
            then child (codes "a") (trim_prefix k (codes "a"))
            else found k entries))
    × (found suffix new_entries ≡ value (codes "2" ∷ []))
    × ((k : Text)
        → text_eq suffix k ≡ false
        → found (codes "a" ++ k) entries ≡ lift (codes "a") (found k new_entries))
unfolding change longest_common_prefix common_prefix text_eq two_entries add_entry_sorted add_loop
divided-found_example =
    divided-found 97 (codes "c") (codes "2") false entries (tt, (omega arith, tt), (tt, tt, tt))
      divided_entries new_entries (codes "a") refl

removed-found_example :
    IsNode (remove_at 0 entries)
    × ((k : Text)
        → found k (remove_at 0 entries)
          ≡ (if text_eq (codes "ab") k then absent else found k entries))
unfolding scan text_eq
removed-found_example =
    removed-found 97 (codes "b") entries 0 (new_leaf (codes "ab") (codes "1" ∷ []))
      (tt, (omega arith, tt), (tt, tt, tt)) refl

put-Answered_example :
    Answered (put memory index string_index 1 (codes "ab") (codes "1") false empty_state)
put-Answered_example =
    put-Answered memory index string_index 1 (codes "ab") (codes "1") false empty_state

abbrev nothing : Cloud
nothing = record { feeds = []; blobs = [] }

abbrev made : Cloud
made = (create_index memory (codes "p") (codes "KV") (codes "t") string_index true 1 nothing).1

index_made :
    create_index memory (codes "p") (codes "KV") (codes "t") string_index true 1 nothing
    ≡ (ok tt, made)
unfolding create_index new_manifest find assign text_eq
index_made = refl

abbrev made_index : Index
made_index = record {
  name = codes "pKVt";
  mutable_index = true;
  index_type = string_index;
  pod_file = [];
}

name_utf8 : is_utf8 (codes "p" ++ codes "KV" ++ codes "t") ≡ true
unfolding follows
name_utf8 = refl

create-open_example :
    open_index memory (codes "p") (codes "KV") (codes "t") made ≡ ok (made_index, 0)
create-open_example =
    create-open memory memory-IsBackend (codes "p") (codes "KV") (codes "t") string_index true 1
      nothing made index_made name_utf8

create-create_example :
    create_index memory (codes "p") (codes "KV") (codes "t") bytes_index false 2 made
    ≡ (err err_index_already_present, made)
create-create_example =
    create-create memory memory-IsBackend (codes "p") (codes "KV") (codes "t") string_index true 1
      nothing made bytes_index false 2 index_made

abbrev unmade : Cloud
unmade = (delete_index memory made_index made).1

index_deleted : delete_index memory made_index made ≡ (ok tt, unmade)
unfolding delete_index load_manifest json create_index new_manifest find assign text_eq
index_deleted = refl

delete-open_example :
    open_index memory (codes "p") (codes "KV") (codes "t") unmade ≡ err err_index_not_present
delete-open_example =
    delete-open memory memory-IsBackend made_index (codes "p") (codes "KV") (codes "t") made unmade
      refl index_deleted

abbrev changed_manifest : Manifest
changed_manifest = new_manifest (codes "pod") 2 string_index false

abbrev stored : Cloud
stored = (store_manifest memory changed_manifest cloud).1

stored_ok : store_manifest memory changed_manifest cloud ≡ (ok tt, stored)
unfolding store_manifest find assign text_eq new_manifest
stored_ok = refl

changed_manifest-IsUtf8 : IsUtf8 changed_manifest
unfolding follows new_manifest
changed_manifest-IsUtf8 = record { name = refl; pod_file = refl; entries = tt }

write-load_example : load_manifest memory changed_manifest.name stored ≡ ok changed_manifest
write-load_example =
    write-load memory memory-IsBackend true changed_manifest cloud stored stored_ok
      changed_manifest-IsUtf8

abbrev count_after :
    Option Manifest
    → Option (Result IndexError (Unit {0}) × State Cloud)
    → Option (Result IndexError ℕ)
count_after mem none = none
count_after mem (some (r, st)) = elim (count_index memory 3 index mem st) [
  | none ↦ none
  | some (n, count) ↦ some n
]

-- ab and abc are counted from the files.
two_counted : count_after none two_keys ≡ some (ok 2)
unfolding count_index in_memory load_index_and_count count_loop put load_manifest json
    update_manifest store_manifest plan add_or_update_string_entry write_entries change
    change_intermediate longest_common_prefix common_prefix two_entries add_entry_sorted add_loop
    same_refs text_eq find assign new_manifest
two_counted = refl

-- An index that was opened with one entry goes on counting one.
one_counted :
    count_after
      (some (record (new_manifest (codes "pod") 1 string_index true) {
        entries = new_leaf (codes "x") (codes "1" ∷ []) ∷ [];
      }))
      two_keys
    ≡ some (ok 1)
unfolding count_index in_memory load_index_and_count count_loop put load_manifest json
    update_manifest store_manifest plan add_or_update_string_entry write_entries change
    change_intermediate longest_common_prefix common_prefix two_entries add_entry_sorted add_loop
    same_refs text_eq find assign new_manifest
one_counted = refl

abbrev pub state_of : Option (Result IndexError (Unit {0}) × State Cloud) → State Cloud
state_of none = empty_state
state_of (some (r, st)) = st

abbrev put_made : Text → Text → State Cloud → Option (Result IndexError (Unit {0}) × State Cloud)
put_made key v st = put memory made_index string_index 1 key v false st

abbrev made_state : State Cloud
made_state = record { count = 0; files = made }

abbrev made_one : State Cloud
made_one = state_of (put_made (codes "ab") (codes "1") made_state)

abbrev made_two : State Cloud
made_two = state_of (put_made (codes "abc") (codes "2") made_one)

abbrev made_three : State Cloud
made_three = state_of (put_made (codes "ab") (codes "3") made_two)

pub ab-IsAscii : IsAscii (codes "ab")
ab-IsAscii = (omega arith, (omega arith, tt))

abbrev made_writes : List (Text × Text)
made_writes = (codes "ab", codes "1") ∷ (codes "abc", codes "2") ∷ (codes "ab", codes "3") ∷ []

made_writes-AsciiKeys : AsciiKeys made_writes
made_writes-AsciiKeys =
    (ab-IsAscii, ((omega arith, (omega arith, (omega arith, tt))), (ab-IsAscii, tt)))

made_runs : Runs memory made_index made_state made_writes made_three
unfolding put load_manifest json update_manifest store_manifest plan add_or_update_string_entry
    write_entries change change_intermediate longest_common_prefix common_prefix two_entries
    add_entry_sorted add_loop same_refs scan text_eq find assign new_manifest create_index
made_runs = step string_index 1 (codes "ab") (codes "1") refl (
    step string_index 1 (codes "abc") (codes "2") refl
      (step string_index 1 (codes "ab") (codes "3") refl start))

create-puts-get_example :
    get memory made_index (codes "ab") made_three.files ≡ some (ok (codes "3" ∷ []))
unfolding replay text_eq
create-puts-get_example =
    create-puts-get memory memory-IsBackend memory-IsSeparate (codes "p") (codes "KV") (codes "t")
      string_index true 1 made_index nothing made_state made_three made_writes refl name_utf8
      made_writes-AsciiKeys index_made made_runs (codes "ab")

pub cloud-IsIndex : IsIndex memory cloud (codes "pod")
unfolding load_manifest json find text_eq new_manifest scan
cloud-IsIndex = (
  new_manifest (codes "pod") 1 string_index true,
  refl,
  refl,
  tree tt (λ k n r q. ground (arith, q)) (λ k n r c q. ground (arith, q)),
)

abbrev pub cloud_put : State Cloud
cloud_put = state_of (put memory index string_index 1 (codes "ab") (codes "1") true empty_state)

pub put_ok :
    put memory index string_index 1 (codes "ab") (codes "1") true empty_state
    ≡ some (ok tt, cloud_put)
unfolding put load_manifest json update_manifest store_manifest plan add_or_update_string_entry
    write_entries change change_intermediate longest_common_prefix common_prefix two_entries
    add_entry_sorted add_loop same_refs scan text_eq find assign new_manifest
put_ok = refl

put-get_example :
    IsIndex memory cloud_put.files (codes "pod")
    × ((refs : List Text) × (true ≡ false → refs ≡ codes "1" ∷ [])
        × ((k : Text)
            → get memory index k cloud_put.files
              ≡ (if text_eq (codes "ab") k then some (ok refs) else get memory index k cloud)))
put-get_example =
    put-get memory memory-IsBackend memory-IsSeparate index string_index 1 (codes "ab") (codes "1")
      true empty_state cloud_put cloud-IsIndex ab-IsAscii put_ok
