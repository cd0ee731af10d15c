-- ===== src/File/Reader/Content.antt =====
-- A file's content in its blocks, where a reader stands in it, and the reading of a new block.

use fair_os_dfs.Prelude.{
  ℕ, suc, ◌+◌, ◌-◌, ◌*◌, ◌/◌, ◌≤◌, ◌<◌, ◌≡◌, ◌⊎◌, inl, inr, refl, sym, ap, ◌∙◌, List, ◌++◌, Option,
  none, some, arith, ltb, ◌==◌, if◌then◌else◌, length, take, drop, get_elem?, drop-drop,
  length-take, length-drop, Bool-cases, ==_iff,
}
use fair_os_dfs.Prelude.Result.{Result, ok}
use fair_os_dfs.File.Reader.{eof, Reader, Step, copy_block, read_block}
use Prim.Native.Nat.{min}
use native.Mathlib.Nat.{mul-div_cancel, suc-mul}
use fair_os_dfs.File.Reader.Pieces.{take-take_lem, joined}

module _ {Ref : Type 0} {E : Type 0} (blocks : List Ref) (fetch : Ref → Result E (List ℕ))
    (content : List ℕ) (size : ℕ) where
  abbrev pub block_at : ℕ → List ℕ
  block_at k = take size (drop (k * size) content)

  -- The blocks are the content, cut into blocks of one size, and can be fetched.
  pub record IsFile : Type 0 where
    pub size_positive : 0 < size
    pub fetches :
        (k : ℕ)
        → k * size < length content
        → (ref : Ref) × (get_elem? blocks k ≡ some ref) × (fetch ref ≡ ok (block_at k))

  abbrev pub Cursor : Option (List ℕ) → Reader → ℕ → Type 0
  Cursor none r p =
      (p < length content → (r.block_size ≡ size) × (r.block_cursor ≡ 0) × (k : ℕ) × (p ≡ k * size))
  Cursor (some block) r p =
      (k : ℕ) × (block ≡ block_at k)
      × (r.block_size ≡ length block)
      × (k * size + r.block_cursor ≡ p)
      × (r.block_cursor < length block)

  -- The reader stands at position `p` of the content.
  pub record IsAt (r : Reader) (p : ℕ) : Type 0 where
    pub offset : r.read_offset ≡ p
    pub total : r.total_size ≡ p
    pub size_known : r.file_size ≡ length content
    pub in_range : p ≤ length content
    pub cursor : Cursor r.last_block r p

  -- A step gives the bytes from `p` on, `m` of them, and moves the reader behind them.
  pub record Moves (p : ℕ) (m : ℕ) (s : Step blocks fetch) : Type 0 where
    pub bytes : s.0 ≡ take m (drop p content)
    pub error : (s.1 ≡ none) ⊎ ((s.1 ≡ some eof) × (p + m ≡ length content))
    pub next : IsAt s.2 (p + m)

  module _ (file : IsFile) where
    pub block_length : (k : ℕ) → length (block_at k) ≡ min size (length content - k * size)
    block_length k =
        omega (arith, length-take size (drop (k * size) content), length-drop (k * size) content)

    abbrev count : List ℕ → ℕ → ℕ
    count block want = if ltb (length block) want then length block else want

    count-le : (block : List ℕ) (want : ℕ) → count block want ≤ length block
    count-le block want = ground arith

    pub after_copy :
        (k c q start : ℕ) (r : Reader)
        → start ≡ k * size
        → start + c ≡ q
        → c ≤ length (block_at k)
        → k * size < length content
        → r.block_size ≡ length (block_at k)
        → r.block_cursor ≡ (if c == length (block_at k) then 0 else c)
        → Cursor (if c == length (block_at k) then none else some (block_at k)) r q
    after_copy k c q start r es eq le lt same_size cur =
        elim (Bool-cases (c == length (block_at k))) [
          | inl whole ↦
              let c_all : c ≡ length (block_at k) = (==_iff c (length (block_at k))).0 whole in
              rw whole (λ more. (
                omega (arith, same_size, c_all, block_length k),
                rw whole at cur,
                suc k,
                omega (arith, same_size, c_all, block_length k, suc-mul k size),
              ))
          | inr part ↦
              let cur' : r.block_cursor ≡ c = rw part at cur in
              let less : c < length (block_at k) = ground (arith, part, le) in
              rw part (k, refl, same_size, omega arith, omega arith)
        ]

    copy_block_lem :
        (p n k want : ℕ) (r : Reader)
        → p + n ≡ k * size
        → k * size < length content
        → IsAt r (p + n)
        → r.block_cursor ≡ 0
        → Moves p
            (n + count (block_at k) want)
            (copy_block blocks fetch (take n (drop p content)) want (block_at k) r)
    unfolding copy_block
    copy_block_lem p n k want r e lt at zero_cursor =
        let c = count (block_at k) want in
        let s = copy_block blocks fetch (take n (drop p content)) want (block_at k) r in
        let moved : r.block_cursor + c ≡ c = omega arith in
        let fits : c ≤ size = omega (arith, count-le (block_at k) want, block_length k) in
        let here : drop n (drop p content) ≡ drop (k * size) content =
          drop-drop n p content ∙ ap (λ (i : ℕ). drop i content) e in
        let piece : take c (block_at k) ≡ take c (drop n (drop p content)) =
          take-take_lem c size (drop (k * size) content) fits ∙ ap (λ x. take c x) (sym here) in
        record {
          bytes = ap (λ x. take n (drop p content) ++ x) piece ∙ joined n c (drop p content);
          error = inl refl;
          next = record {
            offset = omega (arith, at.offset);
            total = omega (arith, at.total);
            size_known = at.size_known;
            in_range = omega (arith, count-le (block_at k) want, block_length k);
            cursor =
                after_copy k c (p + (n + c)) (p + n) s.2 e (omega arith)
                  (count-le (block_at k) want) lt refl (rw moved);
          };
        }

    -- One block is read from where it begins.
    pub read_block_lem :
        (p n want : ℕ) (r : Reader)
        → p + n < length content
        → IsAt r (p + n)
        → r.last_block ≡ none
        → (m : ℕ) × (m ≤ want)
          × (0 < want → 0 < m)
          × Moves p (n + m) (read_block blocks fetch (take n (drop p content)) want r)
    unfolding read_block
    read_block_lem p n want r lt at empty =
        let (same_size, zero_cursor, k, e) = (rw empty at at.cursor) lt in
        let k_lt : k * size < length content = omega arith in
        let (ref, there, got) = file.fetches k k_lt in
        let index : r.read_offset / r.block_size ≡ k =
          rw (at.offset, same_size, e) (mul-div_cancel k file.size_positive) in
        (
          count (block_at k) want,
          ground arith,
          (λ some_want. ground (arith, block_length k, file.size_positive, k_lt, some_want)),
          rw (read_block, index, there, got) (copy_block_lem p n k want r e k_lt at zero_cursor),
        )
