-- ===== src/File/Reader.antt =====
-- pkg/file/reader.go: Read and Seek over the blocks of a file. `Ref` is a block's reference, and
-- `fetch` is getBlock: the download and decompression of a block, an argument. The sums on uint32
-- stay within a block; the length of the caller's buffer is cut to 32 bits as the source does.
pub mod Pieces
pub mod Content
pub mod Read
pub mod Whole
pub mod Seek
use fair_os_dfs.Prelude.{
  ℕ, ◌+◌, ◌-◌, ◌/◌, ◌%◌, ◌^◌, Bool, List, [], ◌∷◌, ◌++◌, Option, none, some, ltb, leb, ◌==◌,
  if◌then◌else◌, length, take, drop, get_elem?,
}
use fair_os_dfs.Prelude.Result.{Result, ok, err}

pub data ReadError (E : Type 0) : Type 0 where
  eof : ReadError E
  err_invalid_offset : ReadError E
  -- an index past the end of the blocks
  panicked : ReadError E
  failed : E → ReadError E

-- type Reader struct, without the cache and the line buffer
pub record Reader : Type 0 where
  pub read_offset : ℕ
  pub last_block : Option (List ℕ)
  pub file_size : ℕ
  pub block_size : ℕ
  pub block_cursor : ℕ
  pub total_size : ℕ

-- func NewReader
unfoldable pub new_reader : ℕ → ℕ → Reader
new_reader file_size block_size = record {
  read_offset = 0;
  last_block = none;
  file_size = file_size;
  block_size = block_size;
  block_cursor = 0;
  total_size = 0;
}

module _ {Ref : Type 0} {E : Type 0} (blocks : List Ref) (fetch : Ref → Result E (List ℕ)) where
  -- The bytes that Read puts in the buffer, its error, and the reader after it.
  abbrev pub Step : Type 0
  Step = List ℕ × Option (ReadError E) × Reader

  -- A block was fetched: its first bytes are copied behind those that are there, and the loop ends.
  unfoldable pub copy_block : List ℕ → ℕ → List ℕ → Reader → Step
  copy_block bytes bytes_to_read block r =
      let count = if ltb (length block) bytes_to_read then length block else bytes_to_read in
      let whole = count == length block in
      (
        bytes ++ take count block,
        none,
        record {
          read_offset = r.read_offset + count;
          last_block = if whole then none else some block;
          file_size = r.file_size;
          block_size = length block;
          block_cursor = if whole then 0 else r.block_cursor + count;
          total_size = r.total_size + count;
        },
      )

  -- `if r.lastBlock == nil`, the loop that fetches a block: its first round returns
  unfoldable pub read_block : List ℕ → ℕ → Reader → Step
  unfolding copy_block
  read_block bytes bytes_to_read r = elim (get_elem? blocks (r.read_offset / r.block_size)) [
    | none ↦ (bytes, some eof, r)
    | some ref ↦ elim (fetch ref) [
      | err e ↦ (bytes, some (failed e), r)
      | ok block ↦ copy_block bytes bytes_to_read block r
    ]
  ]

  -- `if r.lastBlock != nil`, with what is left of the block
  unfoldable pub read_rest : List ℕ → ℕ → Reader → Step
  unfolding read_block
  read_rest block bytes_to_read r =
      let rem_data_size = r.block_size - r.block_cursor in
      let within = r.block_cursor + bytes_to_read in
      let spanning : Reader = record {
        read_offset = r.read_offset + rem_data_size;
        last_block = none;
        file_size = r.file_size;
        block_size = r.block_size;
        block_cursor = 0;
        total_size = r.total_size + rem_data_size;
      } in
      if leb bytes_to_read rem_data_size
      then (
        take bytes_to_read (drop r.block_cursor block),
        none,
        record {
          read_offset = r.read_offset + bytes_to_read;
          last_block = if within == r.block_size then none else some block;
          file_size = r.file_size;
          block_size = r.block_size;
          block_cursor = if within == r.block_size then 0 else within;
          total_size = r.total_size + bytes_to_read;
        },
      )
      else if leb r.file_size (r.total_size + rem_data_size)
      then (take rem_data_size (drop r.block_cursor block), some eof, spanning)
      else read_block (take rem_data_size (drop r.block_cursor block))
          (bytes_to_read - rem_data_size) spanning

  -- func (r *Reader) Read(b []byte) (n int, err error), for a buffer of that length
  unfoldable pub read : ℕ → Reader → Step
  unfolding read_rest
  read len r = if leb r.file_size r.total_size then ([], some eof, r) else elim r.last_block [
    | none ↦ read_block [] (len % 2 ^ 32) r
    | some block ↦ read_rest block (len % 2 ^ 32) r
  ]

  -- The reader after a fetched block has become the last block.
  abbrev placed : ℕ → ℕ → List ℕ → Reader → Reader
  placed offset cursor block r = record {
    read_offset = offset;
    last_block = some block;
    file_size = r.file_size;
    block_size = length block;
    block_cursor = cursor;
    total_size = offset;
  }

  unfoldable pub seek_block : ℕ → ℕ → ℕ → Reader → Result (ReadError E) ℕ × Reader
  seek_block index cursor offset r = elim (get_elem? blocks index) [
    | none ↦ (err panicked, r)
    | some ref ↦ elim (fetch ref) [
      | err e ↦ (err (failed e), r)
      | ok block ↦ (ok offset, placed offset cursor block r)
    ]
  ]

  -- func (r *Reader) Seek(seekOffset int64, _ int) (int64, error), for an offset not below 0
  unfoldable pub seek : ℕ → Reader → Result (ReadError E) ℕ × Reader
  unfolding seek_block
  seek offset r =
      if ltb r.file_size offset
      then (err err_invalid_offset, r)
      else if offset == 0
      then seek_block 0 0 0 r
      else seek_block (offset / r.block_size) (offset % r.block_size) offset r
