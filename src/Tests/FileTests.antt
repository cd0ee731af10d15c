-- ===== src/Tests/FileTests.antt =====
-- Instances for the reader: a file of five bytes in blocks of two, fetched by their number.
use fair_os_dfs.Prelude.{
  ℕ, zero, suc, ◌*◌, ◌%◌, ◌^◌, ◌≤◌, ◌<◌, ◌≡◌, refl, List, [], ◌∷◌, some, arith, take, drop,
  get_elem?,
}
use fair_os_dfs.Prelude.Result.{Result, ok, err}
use fair_os_dfs.File.Reader.{
  eof, panicked, Reader, new_reader, copy_block, read_block, read_rest, read, seek_block, seek,
}
use fair_os_dfs.File.Reader.Content.{IsFile, IsAt, Moves}
use fair_os_dfs.File.Reader.Read.{read_lem, new_reader-IsAt}
use fair_os_dfs.File.Reader.Whole.{read_all, read_all_lem}
use fair_os_dfs.File.Reader.Seek.{seek-IsAt}

data Missing : Type 0 where
  missing : Missing

abbrev content : List ℕ
content = 10 ∷ 11 ∷ 12 ∷ 13 ∷ 14 ∷ []

abbrev blocks : List ℕ
blocks = 0 ∷ 1 ∷ 2 ∷ []

abbrev fetch : ℕ → Result Missing (List ℕ)
fetch zero = ok (10 ∷ 11 ∷ [])
fetch (suc zero) = ok (12 ∷ 13 ∷ [])
fetch (suc (suc zero)) = ok (14 ∷ [])
fetch (suc (suc (suc n))) = err missing

content-IsFile : IsFile blocks fetch content 2
content-IsFile = record { size_positive = omega arith; fetches = λ k lt. fetched k lt }
  where
    fetched :
        (k : ℕ)
        → k * 2 < 5
        → (ref : ℕ) × (get_elem? blocks k ≡ some ref)
          × (fetch ref ≡ ok (take 2 (drop (k * 2) content)))
    fetched zero lt = (0, refl, refl)
    fetched (suc zero) lt = (1, refl, refl)
    fetched (suc (suc zero)) lt = (2, refl, refl)
    fetched (suc (suc (suc n))) lt = absurd (omega arith)

abbrev start : Reader
start = new_reader 5 2

read_all_lem_example : read_all blocks fetch 6 3 start ≡ some (content, eof)
read_all_lem_example =
    read_all_lem blocks fetch content 2 3 content-IsFile (omega arith) (omega arith)

read_lem_example :
    (m : ℕ) × (m ≤ 3)
    × (0 < 3 % 2 ^ 32 → 0 < m)
    × Moves blocks fetch content 2 0 m (read blocks fetch 3 start)
read_lem_example =
    read_lem blocks fetch content 2 content-IsFile 0 3 start (omega arith)
      (new_reader-IsAt blocks fetch content 2 content-IsFile)

start_size : start.block_size ≡ 2
unfolding new_reader
start_size = refl

start_file_size : start.file_size ≡ 5
unfolding new_reader
start_file_size = refl

seek-IsAt_example :
    ((seek blocks fetch 3 start).0 ≡ ok 3)
    × IsAt blocks fetch content 2 (seek blocks fetch 3 start).1 3
seek-IsAt_example =
    seek-IsAt blocks fetch content 2 content-IsFile 3 start start_file_size start_size (omega arith)

-- A reader that has read the last block, which has one byte, seeks by blocks of one byte: at the
-- offset 2 it stands at the byte 14, where the content has 12.
abbrev at_end : Reader
at_end = (read blocks fetch 2 (seek blocks fetch 4 start).1).2

seek_misplaced : (read blocks fetch 1 (seek blocks fetch 2 at_end).1).0 ≡ 14 ∷ []
unfolding read seek read_rest read_block copy_block seek_block new_reader
seek_misplaced = refl

-- A content of whole blocks: Seek to its end is within the file size and indexes past the blocks.
seek_end_panics : (seek (0 ∷ 1 ∷ []) fetch 4 (new_reader 4 2)).0 ≡ err panicked
unfolding seek seek_block new_reader
seek_end_panics = refl
