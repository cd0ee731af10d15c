-- ===== src/File/Reader/Read.antt =====
-- Read gives the next bytes of the content, wherever the reader stands.
use fair_os_dfs.Prelude.{
  ℕ, suc, ◌+◌, ◌-◌, ◌*◌, ◌%◌, ◌^◌, ◌≤◌, ◌<◌, ◌≡◌, inl, inr, refl, ap, ◌∙◌, List, false, none, arith,
  leb, length, take, drop, drop-drop, Bool-cases, Option-cases, leb→le,
}
use fair_os_dfs.Prelude.Result.{Result}
use fair_os_dfs.File.Reader.{new_reader, Reader, read_rest, read}
use native.Mathlib.Nat.{suc-mul}
use fair_os_dfs.File.Reader.Pieces.{inner_piece}
use fair_os_dfs.File.Reader.Content.{
  block_at, IsFile, Cursor, IsAt, Moves, block_length, after_copy, read_block_lem,
}

module _ {Ref : Type 0} {E : Type 0} (blocks : List Ref) (fetch : Ref → Result E (List ℕ))
    (content : List ℕ) (size : ℕ) where
  module _ (file : IsFile blocks fetch content size) where
    rest_piece :
        (k cur m p : ℕ)
        → cur + m ≤ length (block_at blocks fetch content size k)
        → k * size + cur ≡ p
        → take m (drop cur (block_at blocks fetch content size k)) ≡ take m (drop p content)
    rest_piece k cur m p le e =
        inner_piece m cur size (drop (k * size) content)
          (omega (arith, block_length blocks fetch content size file k))
        ∙ ap (λ x. take m x) (drop-drop cur (k * size) content ∙ ap (λ (i : ℕ). drop i content) e)

    -- A reader behind the last byte of a block stands at the next one.
    behind_block :
        (k p : ℕ) (r : Reader)
        → r.block_size ≡ length (block_at blocks fetch content size k)
        → r.block_cursor ≡ 0
        → k * size < length content
        → k * size + length (block_at blocks fetch content size k) ≡ p
        → Cursor blocks fetch content size none r p
    behind_block k p r es ec lt e more = (
      omega (arith, block_length blocks fetch content size file k),
      ec,
      suc k,
      omega (arith, block_length blocks fetch content size file k, suc-mul k size),
    )

    -- The reader after the rest of the last block.
    abbrev spanning : ℕ → Reader → Reader
    spanning k r =
        let rem = length (block_at blocks fetch content size k) - r.block_cursor in
        record {
          read_offset = r.read_offset + rem;
          last_block = none;
          file_size = r.file_size;
          block_size = length (block_at blocks fetch content size k);
          block_cursor = 0;
          total_size = r.total_size + rem;
        }

    spanning-IsAt :
        (p k rem : ℕ) (r : Reader)
        → p < length content
        → IsAt blocks fetch content size r p
        → k * size + r.block_cursor ≡ p
        → r.block_cursor < length (block_at blocks fetch content size k)
        → rem ≡ length (block_at blocks fetch content size k) - r.block_cursor
        → IsAt blocks fetch content size (spanning k r) (p + rem)
    spanning-IsAt p k rem r lt at ec less e = record {
      offset = omega (arith, at.offset);
      total = omega (arith, at.total);
      size_known = at.size_known;
      in_range = omega (arith, block_length blocks fetch content size file k);
      cursor = behind_block k (p + rem) (spanning k r) refl refl (omega arith) (omega arith);
    }

    read_rest_lem :
        (p k want : ℕ) (r : Reader)
        → p < length content
        → IsAt blocks fetch content size r p
        → r.block_size ≡ length (block_at blocks fetch content size k)
        → k * size + r.block_cursor ≡ p
        → r.block_cursor < length (block_at blocks fetch content size k)
        → (m : ℕ) × (m ≤ want)
          × (0 < want → 0 < m)
          × Moves blocks fetch content size p m
              (read_rest blocks fetch (block_at blocks fetch content size k) want r)
    unfolding read_rest
    read_rest_lem p k want r lt at es ec less =
        let rem = length (block_at blocks fetch content size k) - r.block_cursor in
        let k_lt : k * size < length content = omega arith in
        let piece = rest_piece k r.block_cursor rem p (omega arith) ec in
        let there = spanning-IsAt p k rem r lt at ec less refl in
        elim (Bool-cases (leb want rem)) [
          | inl within ↦
              let le : want ≤ rem = leb→le want rem within in
              (
                want,
                omega arith,
                (λ h. h),
                rw (read_rest, es, within)
                    (record {
                      bytes = rest_piece k r.block_cursor want p (omega arith) ec;
                      error = inl refl;
                      next = record {
                        offset = omega (arith, at.offset);
                        total = omega (arith, at.total);
                        size_known = at.size_known;
                        in_range = omega (arith, block_length blocks fetch content size file k);
                        cursor =
                            after_copy blocks fetch content size file k (r.block_cursor + want)
                              (p + want) (k * size) _ refl (omega arith) (omega arith) k_lt refl
                              refl;
                      };
                    }),
              )
          | inr beyond ↦ elim (Bool-cases (leb r.file_size (r.total_size + rem))) [
            | inl last ↦ (
              rem,
              ground (arith, beyond),
              (λ h. omega arith),
              rw (read_rest, es, beyond, last)
                  (record {
                    bytes = piece;
                    error = inr (
                      refl,
                      omega (
                        arith,
                        leb→le r.file_size (r.total_size + rem) last,
                        at.total,
                        at.size_known,
                        there.in_range,
                      ),
                    );
                    next = there;
                  }),
            )
            | inr more ↦
                let short : p + rem < length content =
                  ground (arith, more, at.total, at.size_known) in
                let (m, le, some_read, moves) =
                  read_block_lem blocks fetch content size file p rem (want - rem) (spanning k r)
                    short there refl in
                (
                  rem + m,
                  ground (arith, beyond, le),
                  (λ h. omega arith),
                  rw (read_rest, es, beyond, more, piece) moves,
                )
          ]
        ]

    -- Over a file cut into blocks of one size that can be fetched Read, with the reader anywhere
    -- but at the end of the content and a buffer of len bytes, gives at most len of the next bytes
    -- and moves behind them, at least one where len is not 0 in 32 bits; an error is io.EOF and
    -- comes with the last bytes only.
    pub read_lem :
        (p len : ℕ) (r : Reader)
        → p < length content
        → IsAt blocks fetch content size r p
        → (m : ℕ) × (m ≤ len)
          × (0 < len % 2 ^ 32 → 0 < m)
          × Moves blocks fetch content size p m (read blocks fetch len r)
    unfolding read read_rest
    read_lem p len r lt at =
        let going : leb r.file_size r.total_size ≡ false =
          ground (arith, at.total, at.size_known) in
        elim (Option-cases r.last_block) [
          | inl e ↦
              let start : p + 0 ≡ p = omega arith in
              let (m, le, some_read, moves) =
                read_block_lem blocks fetch content size file p 0 (len % 2 ^ 32) r (omega arith)
                  (rw start at) e in
              let same : 0 + m ≡ m = omega arith in
              (m, omega arith, some_read, rw (read, going, e) (rw same at moves))
          | inr (block, e) ↦
              let (k, eb, es, ec, less) = rw e at at.cursor in
              let (m, le, some_read, moves) =
                read_rest_lem p k (len % 2 ^ 32) r lt at (es ∙ ap (λ x. length x) eb) ec
                  (rw eb at less) in
              (m, omega arith, some_read, rw (read, going, e, eb) moves)
        ]

    -- The reader that NewReader makes stands at the beginning.
    pub new_reader-IsAt : IsAt blocks fetch content size (new_reader (length content) size) 0
    unfolding new_reader
    new_reader-IsAt = record {
      offset = refl;
      total = refl;
      size_known = refl;
      in_range = omega arith;
      cursor = λ more. (refl, refl, 0, omega arith);
    }
