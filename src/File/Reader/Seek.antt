-- ===== src/File/Reader/Seek.antt =====
-- Where Seek puts the reader.
use fair_os_dfs.Prelude.{
  ℕ, ◌+◌, ◌*◌, ◌/◌, ◌%◌, ◌<◌, ◌≡◌, inl, inr, refl, false, List, arith, ltb, ◌==◌, length,
  Bool-cases, ==_iff,
}
use native.Mathlib.Nat.{div-add-mod', mod-lt}
use fair_os_dfs.Prelude.Result.{Result, ok}
use fair_os_dfs.File.Reader.{Reader, seek, seek_block}
use fair_os_dfs.File.Reader.Content.{block_length, IsFile, IsAt}

module _ {Ref : Type 0} {E : Type 0} (blocks : List Ref) (fetch : Ref → Result E (List ℕ))
    (content : List ℕ) (size : ℕ) (file : IsFile blocks fetch content size) where
  seek_block_lem :
      (k cursor offset : ℕ) (r : Reader)
      → r.file_size ≡ length content
      → k * size + cursor ≡ offset
      → cursor < size
      → offset < length content
      → let s = seek_block blocks fetch k cursor offset r in
        (s.0 ≡ ok offset) × IsAt blocks fetch content size s.1 offset
  unfolding seek_block
  seek_block_lem k cursor offset r known e small lt =
      let (ref, there, got) = file.fetches k (omega arith) in
      rw (seek_block, there, got)
        (
          refl,
          record {
            offset = refl;
            total = refl;
            size_known = known;
            in_range = omega arith;
            cursor =
                (k, refl, refl, e, omega (arith, block_length blocks fetch content size file k));
          },
        )

  -- Over a file cut into blocks of one size that can be fetched, while the block size of the
  -- reader is that of the file, Seek to an offset inside the content reports that offset and puts
  -- the reader there.
  pub seek-IsAt :
      (offset : ℕ) (r : Reader)
      → r.file_size ≡ length content
      → r.block_size ≡ size
      → offset < length content
      → ((seek blocks fetch offset r).0 ≡ ok offset)
        × IsAt blocks fetch content size (seek blocks fetch offset r).1 offset
  unfolding seek
  seek-IsAt offset r known same lt =
      let inside : ltb r.file_size offset ≡ false = ground (arith, known, lt) in
      elim (Bool-cases (offset == 0)) [
        | inl zero_offset ↦
            let e : offset ≡ 0 = (==_iff offset 0).0 zero_offset in
            rw (seek, inside, zero_offset, e)
              (seek_block_lem 0 0 0 r known (omega arith) file.size_positive (omega arith))
        | inr positive ↦
            rw (seek, inside, positive)
              (seek_block_lem (offset / r.block_size) (offset % r.block_size) offset r known
                (rw same (div-add-mod' offset size)) (rw same (mod-lt offset file.size_positive))
                lt)
      ]
