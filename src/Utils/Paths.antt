-- ===== src/Utils/Paths.antt =====
-- CombinePathAndFile (pkg/utils/utils.go).
use fair_os_dfs.Prelude.{
  ℕ, ◌≡◌, ◌≢◌, refl, sym, ◌∙◌, subst, ◌&&◌, ◌||◌, List, [], ◌∷◌, ◌++◌, arith, if◌then◌else◌,
}
use fair_os_dfs.Prelude.Text.{text_eq, has_prefix, strip, trim_prefix}

-- const PathSeparator = "/"
abbrev pub path_separator : List ℕ
path_separator = b'/' ∷ []

-- func CombinePathAndFile(path, fileName string) string
unfoldable pub combine_path_and_file : List ℕ → List ℕ → List ℕ
combine_path_and_file path file_name =
    if text_eq path path_separator && text_eq file_name path_separator
    then path_separator
    else if text_eq path path_separator || text_eq path []
    then b'/' ∷ trim_prefix file_name path_separator
    else if text_eq file_name []
    then path
    else b'/' ∷ (trim_prefix path path_separator ++ b'/' ∷ trim_prefix file_name path_separator)

abbrev NoSlash : List ℕ → Type 0
NoSlash [] = Unit
NoSlash (c ∷ cs) = (c ≢ b'/') × NoSlash cs

-- A name as it stands in a directory: not empty, and without a slash.
pub data IsName : List ℕ → Type 0 where
  named : {c : ℕ} {rest : List ℕ} → c ≢ b'/' → NoSlash rest → IsName (c ∷ rest)

-- The path of a directory: the root, or a slash and what does not begin with one.
pub data IsPath : List ℕ → Type 0 where
  root : IsPath path_separator
  below : {c : ℕ} {rest : List ℕ} → c ≢ b'/' → IsPath (b'/' ∷ c ∷ rest)

-- What stands before the slash of a child's path.
abbrev stem : List ℕ → List ℕ
stem p = if text_eq p path_separator then [] else p

trim_other : {c : ℕ} {rest : List ℕ} → c ≢ b'/' → trim_prefix (c ∷ rest) path_separator ≡ c ∷ rest
unfolding trim_prefix has_prefix strip
trim_other h = ground arith

-- The path of a child is the directory's, a slash and the name.
pub combine_path_and_file_lem :
    {path name : List ℕ}
    → IsPath path
    → IsName name
    → combine_path_and_file path name ≡ stem path ++ b'/' ∷ name
unfolding combine_path_and_file trim_prefix has_prefix strip text_eq
combine_path_and_file_lem root (named h hs) = ground arith
combine_path_and_file_lem (below g) (named h hs) = rw (trim_other h)

inner_slash : (ys n m : List ℕ) → NoSlash n → n ≡ ys ++ b'/' ∷ m → ⊥
inner_slash [] [] m h e = ground arith
inner_slash [] (c ∷ n) m h e = ground arith
inner_slash (y ∷ ys) [] m h e = ground arith
inner_slash (y ∷ ys) (c ∷ n) m h e = inner_slash ys n m h.1 (ground arith)

last_slash :
    (xs ys n m : List ℕ)
    → NoSlash n
    → NoSlash m
    → xs ++ b'/' ∷ n ≡ ys ++ b'/' ∷ m
    → (xs ≡ ys) × (n ≡ m)
last_slash [] [] n m h g e = ground arith
last_slash [] (y ∷ ys) n m h g e = absurd (inner_slash ys n m h (ground arith))
last_slash (x ∷ xs) [] n m h g e = absurd (inner_slash xs m n g (ground arith))
last_slash (x ∷ xs) (y ∷ ys) n m h g e = ground (arith, last_slash xs ys n m h g)

IsName-NoSlash : {n : List ℕ} → IsName n → NoSlash n
IsName-NoSlash (named h hs) = (h, hs)

stem_injective : {p q : List ℕ} → IsPath p → IsPath q → stem p ≡ stem q → p ≡ q
unfolding text_eq
stem_injective root root e = refl
stem_injective root (below g) e = ground arith
stem_injective (below h) root e = ground arith
stem_injective (below h) (below g) e = ground arith

-- For directories that are the root or a slash and what does not begin with one, and names that
-- are not empty and have no slash, the path of a child determines the directory and the name.
pub combine_path_and_file_injective :
    {p q n m : List ℕ}
    → IsPath p
    → IsPath q
    → IsName n
    → IsName m
    → combine_path_and_file p n ≡ combine_path_and_file q m
    → (p ≡ q) × (n ≡ m)
combine_path_and_file_injective {p} {q} {n} {m} hp hq hn hm e =
    let same =
      last_slash (stem p) (stem q) n m (IsName-NoSlash hn) (IsName-NoSlash hm)
        (sym (combine_path_and_file_lem hp hn) ∙ e ∙ combine_path_and_file_lem hq hm) in
    (stem_injective hp hq same.0, same.1)

-- A child's path is a path.
pub combine_path_and_file-IsPath :
    {p n : List ℕ} → IsPath p → IsName n → IsPath (combine_path_and_file p n)
unfolding combine_path_and_file trim_prefix has_prefix strip text_eq
combine_path_and_file-IsPath root (named h hs) =
    subst IsPath (sym (combine_path_and_file_lem root (named h hs))) (below h)
combine_path_and_file-IsPath (below g) (named h hs) =
    subst IsPath (sym (combine_path_and_file_lem (below g) (named h hs))) (below g)
