-- ===== src/Utils/Sharing.antt =====
-- Sharing references and swarm references as text (pkg/utils/sharing.go and reference.go).
use fair_os_dfs.Prelude.{
  ℕ, ◌+◌, ◌*◌, ◌≤◌, ◌≡◌, ◌⊎◌, sym, ap, ◌∙◌, inl, inr, false, List, [], ◌∷◌, ◌++◌, Option, none,
  some, arith, ltb, if◌then◌else◌, length, length-append, take, drop, take-length-append,
  drop-length-append,
}
use fair_os_dfs.Prelude.Result.{Result, ok, err}
use fair_os_dfs.Prelude.Text.{Text}
use fair_os_dfs.Utils.Hex.{
  AreBytes, HexError, encode, decode_string, decode_string-encode, length-encode,
}
use fair_os_dfs.Utils.Decimal.{
  Int64, pos, negsuc, NumError, format_int, parse_int, Fits64, parse_int-format_int, Begins,
  digits-Begins,
}

abbrev reference_length : ℕ
reference_length = 32

abbrev encrypted_ref_length : ℕ
encrypted_ref_length = 64

-- type SharingReference struct
pub record SharingReference : Type 0 where
  pub r : Text
  pub n : Int64

pub data SharingError : Type 0 where
  invalid_reference_length : SharingError
  invalid_hex : HexError → SharingError
  invalid_number : NumError → SharingError

-- func (ref SharingReference) String
unfoldable pub sharing_string : SharingReference → Text
sharing_string ref = encode ref.r ++ format_int ref.n

abbrev with_nonce : Text → Result NumError Int64 → Result SharingError SharingReference
with_nonce b (err e) = err (invalid_number e)
with_nonce b (ok n) = ok (record { r = b; n = n })

abbrev with_ref : List ℕ × Option HexError → Text → Result SharingError SharingReference
with_ref (b, some e) rest = err (invalid_hex e)
with_ref (b, none) rest = with_nonce b (parse_int rest)

-- the length of the hex digits, where the time of day has `time_len` digits
unfoldable pub ref_len : ℕ → Text → ℕ
ref_len time_len s =
    if ltb (reference_length * 2 + time_len) (length s)
    then encrypted_ref_length * 2
    else reference_length * 2

-- func ParseSharingReference
unfoldable pub parse_sharing_reference : ℕ → Text → Result SharingError SharingReference
parse_sharing_reference time_len s =
    if ltb (length s) (ref_len time_len s + 1)
    then err invalid_reference_length
    else with_ref (decode_string (take (ref_len time_len s) s)) (drop (ref_len time_len s) s)

-- type Reference struct, func ParseHexReference and func (ref Reference) String
pub record Reference : Type 0 where
  pub bytes : Text

abbrev as_reference : List ℕ × Option HexError → Result HexError Reference
as_reference (b, some e) = err e
as_reference (b, none) = ok (record { bytes = b })

unfoldable pub parse_hex_reference : Text → Result HexError Reference
parse_hex_reference s = as_reference (decode_string s)

unfoldable pub reference_string : Reference → Text
reference_string ref = encode ref.bytes

format_not_empty : (n : Int64) → 1 ≤ length (format_int n)
unfolding format_int
format_not_empty (pos n) = some_length _ (digits-Begins 19 n)
  where
    some_length : (s : Text) → Begins s → 1 ≤ length s
    some_length [] h = absurd h
    some_length (c ∷ cs) h = omega arith
format_not_empty (negsuc n) = omega arith

module _ (time_len : ℕ) (ref : SharingReference) (bytes : AreBytes ref.r)
    (fits : Fits64 ref.n) where
  abbrev text : Text
  text = encode ref.r ++ format_int ref.n

  split :
      (len : ℕ)
      → ref_len time_len text ≡ len
      → length (encode ref.r) ≡ len
      → parse_sharing_reference time_len text ≡ ok ref
  unfolding parse_sharing_reference
  split len q l =
      let e = encode ref.r in
      let f = format_int ref.n in
      let sum = length-append e f in
      let some_digits = format_not_empty ref.n in
      let cut : ref_len time_len text ≡ length e = q ∙ sym l in
      let long : ltb (length (e ++ f)) (length e + 1) ≡ false = ground (arith, sum, some_digits) in
      rw (
        parse_sharing_reference,
        cut,
        long,
        take-length-append e f,
        drop-length-append e f,
        decode_string-encode ref.r bytes,
        parse_int-format_int ref.n fits,
      )

  -- For bytes and a nonce of 64 bits, with 32 bytes and no more digits in the nonce, its sign
  -- included, than the time of day has, or with 64 bytes and a time of at most 64 digits,
  -- ParseSharingReference reads the text of a sharing reference back as the reference.
  pub parse_sharing_reference-sharing_string :
      ((length ref.r ≡ 32) × (length (format_int ref.n) ≤ time_len))
        ⊎ ((length ref.r ≡ 64) × (time_len ≤ 64))
      → parse_sharing_reference time_len (sharing_string ref) ≡ ok ref
  unfolding sharing_string ref_len
  parse_sharing_reference-sharing_string (inl (l, short)) =
      let e = length-encode ref.r in
      let sum = length-append (encode ref.r) (format_int ref.n) in
      split 64 (ground (arith, e, sum, l, short)) (e ∙ omega (arith, l))
  parse_sharing_reference-sharing_string (inr (l, short)) =
      let e = length-encode ref.r in
      let sum = length-append (encode ref.r) (format_int ref.n) in
      let some_digits = format_not_empty ref.n in
      split 128 (ground (arith, e, sum, l, short, some_digits)) (e ∙ omega (arith, l))

-- The text of a reference is read back.
pub parse_hex_reference-reference_string :
    (ref : Reference) → AreBytes ref.bytes → parse_hex_reference (reference_string ref) ≡ ok ref
unfolding parse_hex_reference reference_string
parse_hex_reference-reference_string ref h = ap as_reference (decode_string-encode ref.bytes h)
