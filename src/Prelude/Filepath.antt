-- ===== src/Prelude/Filepath.antt =====
-- Go's path/filepath on Unix: Clean, Dir and Base. ToSlash changes nothing there.
use Prim.Native.Nat.{ℕ}
use mathlib.Core.Path.{◌≡◌, refl}
use mathlib.Core.Bool.{Bool, false}
use mathlib.Core.List.{List, [], ◌∷◌, ◌++◌}
use fair_os_dfs.Prelude.Tests.{◌==◌, if◌then◌else◌}
use fair_os_dfs.Prelude.Text.{text_eq, codes}

-- The parts of a path between slashes: the first, and the others.
unfoldable pub split : List ℕ → List ℕ × List (List ℕ)
split [] = ([], [])
split (c ∷ cs) =
    let (part, parts) = split cs in if c == b'/' then ([], part ∷ parts) else (c ∷ part, parts)

-- One part after those that Clean has kept, which stand in reverse.
unfoldable pub clean_part : Bool → List (List ℕ) → List ℕ → List (List ℕ)
clean_part rooted kept part =
    if text_eq part []
    then kept
    else if text_eq part (codes ".")
    then kept
    else if text_eq part (codes "..")
    then elim kept [
      | [] ↦ if rooted then [] else part ∷ []
      | last ∷ before ↦ if text_eq last (codes "..") then part ∷ last ∷ before else before
    ]
    else part ∷ kept

unfoldable pub clean_parts : Bool → List (List ℕ) → List (List ℕ) → List (List ℕ)
clean_parts rooted kept [] = kept
clean_parts rooted kept (part ∷ parts) = clean_parts rooted (clean_part rooted kept part) parts

-- The kept parts, last first, joined by slashes.
unfoldable pub join_reversed : List (List ℕ) → List ℕ
join_reversed [] = []
join_reversed (part ∷ []) = part
join_reversed (part ∷ before ∷ rest) = join_reversed (before ∷ rest) ++ b'/' ∷ part

abbrev is_rooted : List ℕ → Bool
is_rooted [] = false
is_rooted (c ∷ cs) = c == b'/'

-- filepath.Clean
unfoldable pub clean : List ℕ → List ℕ
unfolding split clean_part clean_parts join_reversed
clean path =
    let (part, parts) = split path in
    let body = join_reversed (clean_parts (is_rooted path) [] (part ∷ parts)) in
    if is_rooted path then b'/' ∷ body else if text_eq body [] then codes "." else body

-- path[:i+1] and path[i+1:] at the last slash
unfoldable pub cut_last : List ℕ → List ℕ × List ℕ
cut_last [] = ([], [])
cut_last (c ∷ cs) =
    let (front, back) = cut_last cs in
    if text_eq front []
    then if c == b'/' then (c ∷ [], back) else ([], c ∷ back)
    else (c ∷ front, back)

-- filepath.Dir
unfoldable pub dir : List ℕ → List ℕ
unfolding clean cut_last
dir path = clean (cut_last path).0

-- A path without the slashes at its end.
unfoldable pub trim_slashes : List ℕ → List ℕ
trim_slashes [] = []
trim_slashes (c ∷ cs) =
    let rest = trim_slashes cs in
    if text_eq rest [] then if c == b'/' then [] else c ∷ [] else c ∷ rest

-- filepath.Base
unfoldable pub base : List ℕ → List ℕ
unfolding trim_slashes cut_last
base [] = codes "."
base (c ∷ cs) =
    let name = (cut_last (trim_slashes (c ∷ cs))).1 in if text_eq name [] then b'/' ∷ [] else name

dir_nested : dir (codes "/a/b") ≡ codes "/a"
unfolding dir clean cut_last split clean_part clean_parts join_reversed text_eq
dir_nested = refl

dir_top : dir (codes "/a") ≡ codes "/"
unfolding dir clean cut_last split clean_part clean_parts join_reversed text_eq
dir_top = refl

dir_plain : dir (codes "ab") ≡ codes "."
unfolding dir clean cut_last split clean_part clean_parts join_reversed text_eq
dir_plain = refl

base_nested : base (codes "/a/b/") ≡ codes "b"
unfolding base trim_slashes cut_last text_eq
base_nested = refl
