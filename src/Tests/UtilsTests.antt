-- ===== src/Tests/UtilsTests.antt =====
-- Instances for paths, hex strings and addresses.
use fair_os_dfs.Prelude.{ℕ, ◌≡◌, refl, List, [], ◌∷◌, none, some, arith, length}
use fair_os_dfs.Prelude.Text.{codes}
use fair_os_dfs.Utils.Paths.{
  IsName, named, IsPath, below, combine_path_and_file, combine_path_and_file_injective,
  combine_path_and_file-IsPath,
}
use fair_os_dfs.Utils.Decimal.{pos, Fits64, format_int, digits}
use fair_os_dfs.Utils.Sharing.{
  SharingReference, sharing_string, parse_sharing_reference, parse_sharing_reference-sharing_string,
}
use fair_os_dfs.Prelude.{length, replicate, length-replicate, ◌≤◌, inl}
use fair_os_dfs.Prelude.Result.{ok}
use fair_os_dfs.Utils.Hex.{
  AreBytes, encode, decode_string, decode_string-encode, err_missing_prefix, decode, decode-encode,
}

abbrev docs : List ℕ
docs = codes "/docs"

docs-IsPath : IsPath docs
docs-IsPath = below (omega arith)

abbrev note : List ℕ
note = codes "a1"

note-IsName : IsName note
note-IsName = named (omega arith) (omega arith, tt)

combine_path_and_file_injective_example : (docs ≡ docs) × (note ≡ note)
combine_path_and_file_injective_example =
    combine_path_and_file_injective docs-IsPath docs-IsPath note-IsName note-IsName refl

combine_path_and_file-IsPath_example : IsPath (combine_path_and_file docs note)
combine_path_and_file-IsPath_example = combine_path_and_file-IsPath docs-IsPath note-IsName

abbrev bytes : List ℕ
bytes = 0 ∷ 171 ∷ 255 ∷ []

bytes-AreBytes : AreBytes bytes
bytes-AreBytes = ground arith

decode_string-encode_example : decode_string (encode bytes) ≡ (bytes, none)
decode_string-encode_example = decode_string-encode bytes bytes-AreBytes

decode-encode_example :
    (decode (b'0' ∷ b'x' ∷ encode bytes) ≡ (bytes, none))
    × (decode (encode bytes) ≡ ([], some err_missing_prefix))
decode-encode_example = decode-encode 0 (171 ∷ 255 ∷ []) bytes-AreBytes

abbrev twenty : List ℕ
twenty =
    1 ∷ 2 ∷ 3 ∷ 4 ∷ 5 ∷ 6 ∷ 7 ∷ 8 ∷ 9 ∷ 10 ∷ 11 ∷ 12 ∷ 13 ∷ 14 ∷ 15 ∷ 16 ∷ 17 ∷ 18 ∷ 19 ∷ 200 ∷ []

abbrev shared_file : SharingReference
shared_file = record { r = replicate 32 7; n = pos 1700000000 }

all_bytes : AreBytes shared_file.r
all_bytes = ground arith

fits_nonce : Fits64 shared_file.n
fits_nonce = omega arith

ten_digits : length (format_int shared_file.n) ≤ 10
unfolding format_int digits
ten_digits = omega arith

parse_sharing_reference-sharing_string_example :
    parse_sharing_reference 10 (sharing_string shared_file) ≡ ok shared_file
parse_sharing_reference-sharing_string_example =
    parse_sharing_reference-sharing_string 10 shared_file all_bytes fits_nonce
      (inl (length-replicate {A = ℕ} 32 7, ten_digits))
