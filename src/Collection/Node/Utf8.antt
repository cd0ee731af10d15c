-- ===== src/Collection/Node/Utf8.antt =====
-- The entries that Put makes of valid UTF-8 for an ASCII key are valid UTF-8 (index_api.go).
use fair_os_dfs.Prelude.{
  ◌<◌, ◌≡◌, refl, sym, ◌∙◌, subst, inl, inr, Bool, true, false, not, ◌&&◌, List, [], ◌∷◌, Option,
  none, some, ◌==◌, ==_iff, if◌then◌else◌, Bool-cases,
}
use fair_os_dfs.Prelude.Text.{Text, text_eq}
use fair_os_dfs.Prelude.Text.Utf8.{is_utf8, follows, IsAscii, follows_ascii, ascii_utf8}
use fair_os_dfs.Collection.Entries.{
  Entry, is_leaf, new_leaf, new_intermediate, common_prefix, longest_common_prefix, same_entry,
  first_after, put_front, add_loop, add_entry_sorted, Change, unchanged, updated, divided, descends,
  behind, two_entries, change_intermediate, change,
}
use fair_os_dfs.Collection.Manifests.Stored.{Utf8Names}

-- The parts of a text and an ASCII text: the prefix and the second rest are ASCII.
record IsParted (parts : Text × Text × Text) : Type 0 where
  prefix : IsAscii parts.0
  entry_suffix : is_utf8 parts.1 ≡ true
  key_suffix : IsAscii parts.2

common_prefix-IsParted : (s t : Text) → is_utf8 s ≡ true → IsAscii t → IsParted (common_prefix s t)
unfolding common_prefix
common_prefix-IsParted [] t u h = record { prefix = tt; entry_suffix = u; key_suffix = h }
common_prefix-IsParted (x ∷ xs) [] u h = record { prefix = tt; entry_suffix = u; key_suffix = tt }
common_prefix-IsParted (x ∷ xs) (y ∷ ys) u h = elim (Bool-cases (x == y)) [
  | inl q ↦
      let low : x < 128 = subst (λ c. c < 128) (sym ((==_iff x y).0 q)) h.0 in
      let rest = common_prefix-IsParted xs ys (sym (follows_ascii x xs low) ∙ u) h.1 in
      rw q (record {
        prefix = (low, rest.prefix);
        entry_suffix = rest.entry_suffix;
        key_suffix = rest.key_suffix;
      })
  | inr q ↦ rw q (record { prefix = tt; entry_suffix = u; key_suffix = h })
]

longest_common_prefix-IsParted :
    (s t : Text) → is_utf8 s ≡ true → IsAscii t → IsParted (longest_common_prefix s t)
unfolding longest_common_prefix follows
longest_common_prefix-IsParted [] t u h = record {
  prefix = tt;
  entry_suffix = refl;
  key_suffix = tt;
}
longest_common_prefix-IsParted (x ∷ xs) [] u h = record {
  prefix = tt;
  entry_suffix = refl;
  key_suffix = tt;
}
longest_common_prefix-IsParted (x ∷ xs) (y ∷ ys) u h = common_prefix-IsParted (x ∷ xs) (y ∷ ys) u h

abbrev Utf8Some : Option (List Entry) → Type 0
Utf8Some none = Unit
Utf8Some (some es) = Utf8Names es

put_front-Utf8Some :
    (e : Entry) (o : Option (List Entry))
    → is_utf8 e.name ≡ true
    → Utf8Some o
    → Utf8Some (put_front e o)
put_front-Utf8Some e none u h = tt
put_front-Utf8Some e (some es) u h = (u, h)

either : {A : Type 0} (P : A → Type 0) (c : Bool) (x y : A) → P x → P y → P (if c then x else y)
either P true x y p q = p
either P false x y p q = q

add_loop-Utf8Some :
    (new : Entry) (added : Bool) (es : List Entry)
    → is_utf8 new.name ≡ true
    → Utf8Names es
    → Utf8Some (add_loop new added es)
unfolding add_loop
add_loop-Utf8Some new true [] u h = tt
add_loop-Utf8Some new false [] u h = (u, tt)
add_loop-Utf8Some new true (e ∷ es) u h =
    let rest = put_front-Utf8Some e _ h.0 (add_loop-Utf8Some new true es u h.1) in
    either Utf8Some (same_entry e new) _ _ tt (either Utf8Some (text_eq e.name []) _ _ rest rest)
add_loop-Utf8Some new false (e ∷ es) u h =
    let here = first_after e.name new.name in
    let rest = put_front-Utf8Some e _ h.0 (add_loop-Utf8Some new here es u h.1) in
    either Utf8Some (same_entry e new) _ _ tt (
      either Utf8Some (text_eq e.name []) _ _ rest
        (either Utf8Some here _ _ (put_front-Utf8Some new _ u rest) rest))

pub add_entry_sorted-Utf8Names :
    (new : Entry) (es : List Entry)
    → is_utf8 new.name ≡ true
    → Utf8Names es
    → Utf8Names (add_entry_sorted new es)
unfolding add_entry_sorted
add_entry_sorted-Utf8Names new [] u h = (u, tt)
add_entry_sorted-Utf8Names new (e ∷ es) u h =
    either Utf8Names (text_eq new.name []) _ _ (u, h)
      (entries (add_loop new false (e ∷ es)) (add_loop-Utf8Some new false (e ∷ es) u h))
  where
    entries :
        (o : Option (List Entry))
        → Utf8Some o
        → Utf8Names (elim o [ none ↦ e ∷ es | some entries ↦ entries ])
    entries none k = h
    entries (some es') k = k

two_entries-Utf8Names :
    (entry1 entry2 : Entry)
    → is_utf8 entry1.name ≡ true
    → is_utf8 entry2.name ≡ true
    → Utf8Names (two_entries entry1 entry2)
unfolding two_entries
two_entries-Utf8Names entry1 entry2 u1 u2 =
    add_entry_sorted-Utf8Names entry2 (add_entry_sorted entry1 []) u2
      (add_entry_sorted-Utf8Names entry1 [] u1 tt)

-- The entries that a change leaves and makes are valid UTF-8, and its prefix and rest are ASCII.
abbrev pub KeepsUtf8 : Change → Type 0
KeepsUtf8 unchanged = Unit
KeepsUtf8 (updated es) = Utf8Names es
KeepsUtf8 (divided es prefix new) = Utf8Names es × IsAscii prefix × Utf8Names new
KeepsUtf8 (descends name rest) = IsAscii rest

behind-KeepsUtf8 :
    (e : Entry) (c : Change) → is_utf8 e.name ≡ true → KeepsUtf8 c → KeepsUtf8 (behind e c)
behind-KeepsUtf8 e unchanged u h = tt
behind-KeepsUtf8 e (updated es) u h = (u, h)
behind-KeepsUtf8 e (divided es prefix new) u (kept, ascii, made) = ((u, kept), ascii, made)
behind-KeepsUtf8 e (descends name rest) u h = h

change_intermediate-KeepsUtf8 :
    (key value : Text) (e : Entry) (es : List Entry) (prefix entry_suffix key_suffix : Text)
    (later : Change)
    → IsAscii key
    → Utf8Names es
    → IsParted (prefix, entry_suffix, key_suffix)
    → KeepsUtf8 later
    → KeepsUtf8 (change_intermediate key value e es prefix entry_suffix key_suffix later)
unfolding change_intermediate
change_intermediate-KeepsUtf8 key value e es prefix entry_suffix key_suffix later ascii kept parted
      h =
    let new =
      two_entries-Utf8Names (new_leaf key_suffix (value ∷ [])) (new_intermediate entry_suffix [])
        (ascii_utf8 key_suffix parted.key_suffix) parted.entry_suffix in
    either KeepsUtf8 (not (text_eq key_suffix []) && not (text_eq entry_suffix [])) _ _
      ((ascii_utf8 prefix parted.prefix, kept), parted.prefix, new)
      (either KeepsUtf8 (not (text_eq key_suffix [])) _ _ parted.key_suffix (
        either KeepsUtf8 (text_eq entry_suffix [] && text_eq key_suffix []) _ _ parted.key_suffix (
          either KeepsUtf8 (not (text_eq entry_suffix [])) _ _
            ((ascii_utf8 key ascii, kept), parted.prefix, new) h)))

pub change-KeepsUtf8 :
    (key value : Text) (apnd : Bool) (es : List Entry)
    → IsAscii key
    → Utf8Names es
    → KeepsUtf8 (change key value apnd es)
unfolding change
change-KeepsUtf8 key value apnd [] ascii h = tt
change-KeepsUtf8 key value apnd (e ∷ es) ascii h =
    let parts = longest_common_prefix e.name key in
    let parted = longest_common_prefix-IsParted e.name key h.0 ascii in
    let later =
      behind-KeepsUtf8 e (change key value apnd es) h.0
        (change-KeepsUtf8 key value apnd es ascii h.1) in
    either KeepsUtf8 (is_leaf e && text_eq e.name key) _ _ (h.0, h.1)
      (either KeepsUtf8 (text_eq parts.0 []) _ _ later (
        either KeepsUtf8 (is_leaf e) _ _
          (
            (ascii_utf8 parts.0 parted.prefix, h.1),
            parted.prefix,
            two_entries-Utf8Names (new_leaf parts.2 (value ∷ [])) (new_leaf parts.1 e.ref)
                (ascii_utf8 parts.2 parted.key_suffix) parted.entry_suffix,
          )
          (change_intermediate-KeepsUtf8 key value e es parts.0 parts.1 parts.2
            (behind e (change key value apnd es)) ascii h.1 parted later)))
