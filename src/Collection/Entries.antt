-- ===== src/Collection/Entries.antt =====
-- The entries of a manifest (pkg/collection/entry.go, and the loops of index_api.go over them), for
-- manifests that are kept on disk: no entry holds its child manifest in memory.
use fair_os_dfs.Prelude.{
  ℕ, zero, suc, Bool, true, false, not, ◌&&◌, ◌||◌, List, [], ◌∷◌, ◌++◌, Option, none, some, ltb,
  ◌==◌, if◌then◌else◌,
}
use fair_os_dfs.Prelude.Text.{Text, text_eq, has_prefix, trim_prefix}

-- leafEntry and intermediateEntry
pub data EType : Type 0 where
  leaf_entry : EType
  intermediate_entry : EType

-- type Entry struct
pub record Entry : Type 0 where
  pub name : Text
  pub e_type : EType
  pub ref : List Text

abbrev pub is_leaf : Entry → Bool
is_leaf e = elim e.e_type [ leaf_entry ↦ true | intermediate_entry ↦ false ]

abbrev pub new_leaf : Text → List Text → Entry
new_leaf name ref = record { name = name; e_type = leaf_entry; ref = ref }

abbrev pub new_intermediate : Text → List Text → Entry
new_intermediate name ref = record { name = name; e_type = intermediate_entry; ref = ref }

-- the loop of longestCommonPrefix: the prefix and the two suffixes
unfoldable pub common_prefix : Text → Text → Text × Text × Text
common_prefix [] s = ([], [], s)
common_prefix (x ∷ xs) [] = ([], x ∷ xs, [])
common_prefix (x ∷ xs) (y ∷ ys) =
    let (prefix, suffix, suffix') = common_prefix xs ys in
    if x == y then (x ∷ prefix, suffix, suffix') else ([], x ∷ xs, y ∷ ys)

-- func longestCommonPrefix(str1, str2 string) (string, string, string)
unfoldable pub longest_common_prefix : Text → Text → Text × Text × Text
unfolding common_prefix
longest_common_prefix [] s = ([], [], [])
longest_common_prefix (x ∷ xs) [] = ([], [], [])
longest_common_prefix (x ∷ xs) (y ∷ ys) = common_prefix (x ∷ xs) (y ∷ ys)

-- one list of references has the bytes of the other
unfoldable pub same_refs : List Text → List Text → Bool
same_refs [] [] = true
same_refs [] (s ∷ ss) = false
same_refs (r ∷ rs) [] = false
same_refs (r ∷ rs) (s ∷ ss) = text_eq r s && same_refs rs ss

abbrev same_type : EType → EType → Bool
same_type leaf_entry leaf_entry = true
same_type leaf_entry intermediate_entry = false
same_type intermediate_entry leaf_entry = false
same_type intermediate_entry intermediate_entry = true

abbrev pub same_entry : Entry → Entry → Bool
same_entry e f = text_eq e.name f.name && same_type e.e_type f.e_type && same_refs e.ref f.ref

-- entry.Name[0] > entryToAdd.Name[0], for names that are not empty
abbrev pub first_after : Text → Text → Bool
first_after (a ∷ as') (b ∷ bs) = ltb b a
first_after [] t = false
first_after (a ∷ as') [] = false

abbrev pub put_front : Entry → Option (List Entry) → Option (List Entry)
put_front e none = none
put_front e (some es) = some (e ∷ es)

-- the loop of addEntryToManifestSortedLexicographically, with what `entryAdded` says; `none` where
-- it returns early and leaves the manifest as it is
unfoldable pub add_loop : Entry → Bool → List Entry → Option (List Entry)
add_loop new true [] = some []
add_loop new false [] = some (new ∷ [])
add_loop new added (e ∷ es) =
    let here = not added && first_after e.name new.name in
    let rest = add_loop new (added || here) es in
    if same_entry e new
    then none
    else if text_eq e.name []
    then put_front e rest
    else if here
    then put_front new (put_front e rest)
    else put_front e rest

-- func (*Index) addEntryToManifestSortedLexicographically
unfoldable pub add_entry_sorted : Entry → List Entry → List Entry
unfolding add_loop
add_entry_sorted new [] = new ∷ []
add_entry_sorted new (e ∷ es) =
    if text_eq new.name []
    then new ∷ e ∷ es
    else elim (add_loop new false (e ∷ es)) [ none ↦ e ∷ es | some entries ↦ entries ]

-- What the loop of addOrUpdateStringEntry over the entries comes to: nothing that fits the key; the
-- entries with one changed; the entries with one made an intermediate entry, with its prefix and
-- the entries of the new manifest behind it; or a child to go on in, with the rest of the key.
pub data Change : Type 0 where
  unchanged : Change
  updated : List Entry → Change
  divided : List Entry → Text → List Entry → Change
  descends : Text → Text → Change

abbrev pub behind : Entry → Change → Change
behind e unchanged = unchanged
behind e (updated es) = updated (e ∷ es)
behind e (divided es prefix new) = divided (e ∷ es) prefix new
behind e (descends name rest) = descends name rest

-- The new manifest of a divided entry: the key's leaf, and then what the entry was.
unfoldable pub two_entries : Entry → Entry → List Entry
two_entries entry1 entry2 = add_entry_sorted entry2 (add_entry_sorted entry1 [])

-- The round of the loop at an intermediate entry that has a prefix in common with the key.
unfoldable pub change_intermediate :
    Text → Text → Entry → List Entry → Text → Text → Text → Change → Change
change_intermediate key value e es prefix entry_suffix key_suffix later =
    if not (text_eq key_suffix []) && not (text_eq entry_suffix [])
    then divided (new_intermediate prefix e.ref ∷ es) prefix
        (two_entries (new_leaf key_suffix (value ∷ [])) (new_intermediate entry_suffix []))
    else if not (text_eq key_suffix [])
    then descends e.name key_suffix
    else if text_eq entry_suffix [] && text_eq key_suffix []
    then descends prefix key_suffix
    else if not (text_eq entry_suffix [])
    then divided (new_intermediate key e.ref ∷ es) prefix
        (two_entries (new_leaf key_suffix (value ∷ [])) (new_intermediate entry_suffix []))
    else later

-- The loop of addOrUpdateStringEntry, for a key that is not empty.
unfoldable pub change : Text → Text → Bool → List Entry → Change
change key value apnd [] = unchanged
change key value apnd (e ∷ es) =
    let (prefix, entry_suffix, key_suffix) = longest_common_prefix e.name key in
    let later = behind e (change key value apnd es) in
    if is_leaf e && text_eq e.name key
    then updated (new_leaf e.name ((if apnd then e.ref else []) ++ value ∷ []) ∷ es)
    else if text_eq prefix []
    then later
    else if is_leaf e
    then divided (new_intermediate prefix e.ref ∷ es) prefix
        (two_entries (new_leaf key_suffix (value ∷ [])) (new_leaf entry_suffix e.ref))
    else change_intermediate key value e es prefix entry_suffix key_suffix later

-- What the loop of findManifest over the entries comes to: nothing, an entry and its index, or a
-- child and the rest of the key.
pub data Scan : Type 0 where
  missing : Scan
  here : ℕ → Entry → Scan
  branch : Text → Text → Scan

-- len(entry.Name) > 0, and key == "" or entry.Name[0] > key[0]
abbrev pub too_far : Text → Text → Bool
too_far [] key = false
too_far (a ∷ as') [] = true
too_far (a ∷ as') (b ∷ bs) = ltb b a

unfoldable pub scan : ℕ → Text → List Entry → Scan
scan i key [] = missing
scan i key (e ∷ es) =
    let later = scan (suc i) key es in
    if too_far e.name key
    then missing
    else if is_leaf e && text_eq e.name key
    then here i e
    else if not (is_leaf e) && has_prefix key e.name
    then branch e.name (trim_prefix key e.name)
    else later

-- append(entries[:i], entries[i+1:]...)
unfoldable pub remove_at : ℕ → List Entry → List Entry
remove_at i [] = []
remove_at zero (e ∷ es) = es
remove_at (suc i) (e ∷ es) = e ∷ remove_at i es
