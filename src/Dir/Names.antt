-- ===== src/Dir/Names.antt =====
-- The names of a directory without one of them (pkg/dir/modify_dir_entry.go).
use mathlib.Core.List.{Memᴰ}
use mathlib.Core.List.Memᴰ
use fair_os_dfs.Prelude.{
  ℕ, ◌≡◌, inl, inr, refl, sym, ap, ◌∙◌, false, List, [], ◌∷◌, ◌++◌, Bool-cases,
}
use fair_os_dfs.Prelude.Text.{text_eq, text_eq_refl}
use fair_os_dfs.Dir.{Text, Inode, Backend, without_name, removed}

-- The names of an inode are those of another but for one, and its time is given.
pub record IsWithout (entry : Text) (now : ℕ) (before after : Inode) : Type 0 where
  pub meta : after.meta ≡ record before.meta { modification_time = now }
  pub kept :
      (n : Text)
      → Memᴰ n before.file_or_dir_names
      → text_eq n entry ≡ false
      → Memᴰ n after.file_or_dir_names
  pub only :
      (n : Text)
      → Memᴰ n after.file_or_dir_names
      → Memᴰ n before.file_or_dir_names × (text_eq n entry ≡ false)

without_name-kept :
    (entry n : Text) (names : List Text)
    → Memᴰ n names
    → text_eq n entry ≡ false
    → Memᴰ n (without_name entry names)
unfolding without_name
without_name-kept entry n [] mem h = mem
without_name-kept entry n (name ∷ names) mem h = elim (Memᴰ.cases_cons mem) [
  | inl same ↦
      let other : text_eq name entry ≡ false = ap (λ x. text_eq x entry) (sym same) ∙ h in
      rw (without_name, other) (Memᴰ.head same)
  | inr mem' ↦
      let rest = without_name-kept entry n names mem' h in
      elim (Bool-cases (text_eq name entry)) [
        | inl q ↦ rw (without_name, q) rest
        | inr q ↦ rw (without_name, q) (Memᴰ.tail rest)
      ]
]

without_name-only :
    (entry n : Text) (names : List Text)
    → Memᴰ n (without_name entry names)
    → Memᴰ n names × (text_eq n entry ≡ false)
unfolding without_name
without_name-only entry n [] mem = absurd (Memᴰ.not-nil mem)
without_name-only entry n (name ∷ names) mem = elim (Bool-cases (text_eq name entry)) [
  | inl q ↦
      let (within, differs) = without_name-only entry n names (rw (without_name, q) at mem) in
      (Memᴰ.tail within, differs)
  | inr q ↦ elim (Memᴰ.cases_cons (rw (without_name, q) at mem)) [
    | inl same ↦ (Memᴰ.head same, ap (λ x. text_eq x entry) same ∙ q)
    | inr mem' ↦
        let (within, differs) = without_name-only entry n names mem' in (Memᴰ.tail within, differs)
  ]
]

pub without_name-append :
    (item : Text) (names : List Text)
    → without_name item (names ++ item ∷ []) ≡ without_name item names
unfolding without_name
without_name-append item [] = rw (text_eq_refl item)
without_name-append item (name ∷ names) = rw (without_name-append item names)

module _ {S : Type 0} {D : Type 0} {E : Type 0} (b : Backend S D E) where
  pub removed-IsWithout :
      (entry : Text) (now : ℕ) (inode : Inode)
      → IsWithout entry now inode (removed b entry now inode)
  removed-IsWithout entry now inode = record {
    meta = refl;
    kept = λ n. without_name-kept entry n inode.file_or_dir_names;
    only = λ n. without_name-only entry n inode.file_or_dir_names;
  }
