-- ===== src/File/Reader/Whole.antt =====
-- Reading to the end, as io.ReadAll does, gives the whole content.
use fair_os_dfs.Prelude.{
  ℕ, zero, suc, ◌+◌, ◌-◌, ◌%◌, ◌^◌, ◌<◌, ◌≡◌, inl, inr, ap, true, List, ◌++◌, Option, none, some,
  arith, leb, length, take, drop, take-all, length-drop,
}
use native.Mathlib.Decide.{dec_lt}
use fair_os_dfs.Prelude.Result.{Result}
use fair_os_dfs.File.Reader.{ReadError, eof, Reader, Step, new_reader, read}
use fair_os_dfs.File.Reader.Pieces.{drop-all, piece_rest}
use fair_os_dfs.File.Reader.Content.{IsFile, IsAt, Moves}
use fair_os_dfs.File.Reader.Read.{read_lem, new_reader-IsAt}

module _ {Ref : Type 0} {E : Type 0} (blocks : List Ref) (fetch : Ref → Result E (List ℕ)) where
  abbrev Whole : Type 0
  Whole = Option (List ℕ × ReadError E)

  abbrev collect : Step blocks fetch → Whole → Whole
  collect (bytes, some e, r) rest = some (bytes, e)
  collect (bytes, none, r) none = none
  collect (bytes, none, r) (some (rest, e)) = some (bytes ++ rest, e)

  -- Read again and again, with a buffer of `len` bytes, until it reports an error; `none` when the
  -- fuel runs out.
  pub read_all : ℕ → ℕ → Reader → Whole
  unfolding read
  read_all zero len r = none
  read_all (suc fuel) len r = let s = read blocks fetch len r in collect s (read_all fuel len s.2)

  module _ (content : List ℕ) (size : ℕ) (file : IsFile blocks fetch content size) (len : ℕ)
      (some_buffer : 0 < len % 2 ^ 32) where
    collect_lem :
        (p m : ℕ) (s : Step blocks fetch) (rest : Whole)
        → Moves blocks fetch content size p m s
        → rest ≡ some (drop (p + m) content, eof)
        → collect s rest ≡ some (drop p content, eof)
    collect_lem p m (bytes, none, r) rest moves e =
        rw (e, moves.bytes) (ap (λ x. some (x, eof)) (piece_rest m p content))
    collect_lem p m (bytes, some err, r) rest moves e = elim moves.error [
      | inl no_error ↦ ground arith
      | inr (ends, all) ↦
          let whole : take m (drop p content) ≡ drop p content =
            take-all m (drop p content) (omega (arith, length-drop p content)) in
          cc (moves.bytes, ends, whole)
    ]

    read_all_from :
        (fuel p : ℕ) (r : Reader)
        → IsAt blocks fetch content size r p
        → length content - p < fuel
        → read_all fuel len r ≡ some (drop p content, eof)
    unfolding read_all read
    read_all_from zero p r at lt = absurd (omega arith)
    read_all_from (suc fuel) p r at lt = elim (dec_lt p (length content)) [
      | yes inside ↦
          let (m, le, some_read, moves) =
            read_lem blocks fetch content size file p len r inside at in
          collect_lem p m (read blocks fetch len r) (read_all fuel len (read blocks fetch len r).2)
            moves
            (read_all_from fuel (p + m) (read blocks fetch len r).2 moves.next
              (omega (arith, some_read some_buffer)))
      | no end ↦
          let stop : leb r.file_size r.total_size ≡ true =
            ground (arith, end, at.total, at.size_known) in
          rw (read_all, read, stop, drop-all p content (omega arith))
    ]

  -- Over any file cut into blocks of one size that can be fetched, with any buffer whose length is
  -- positive and below 2 ^ 32, reading from the beginning ends within as many reads as the content
  -- has bytes, and one, with the whole content and io.EOF.
  pub read_all_lem :
      (content : List ℕ) (size len : ℕ)
      → IsFile blocks fetch content size
      → 0 < len
      → len < 2 ^ 32
      → read_all (length content + 1) len (new_reader (length content) size) ≡ some (content, eof)
  read_all_lem content size len file some_len fits =
      read_all_from content size file len (omega arith) (length content + 1) 0
        (new_reader (length content) size) (new_reader-IsAt blocks fetch content size file)
        (omega arith)
