-- ===== src/Utils/Hex.antt =====
-- Hex strings: Encode, Decode and mapError of pkg/utils/utils.go, over Go's encoding/hex.
use fair_os_dfs.Prelude.{
  ℕ, ◌+◌, ◌-◌, ◌*◌, ◌/◌, ◌%◌, ◌<◌, ◌≡◌, refl, ap, Bool, false, ◌&&◌, ◌||◌, List, [], ◌∷◌, Option,
  none, some, arith, ltb, leb, ◌==◌, if◌then◌else◌, length,
}

abbrev pub AreBytes : List ℕ → Type 0
AreBytes [] = Unit
AreBytes (b ∷ bs) = (b < 256) × AreBytes bs

pub hex_digit : ℕ → ℕ
hex_digit d = if ltb d 10 then b'0' + d else b'a' + (d - 10)

-- hex.Encode, and func Encode(b []byte) string
unfoldable pub encode : List ℕ → List ℕ
unfolding hex_digit
encode [] = []
encode (b ∷ bs) = hex_digit (b / 16) ∷ hex_digit (b % 16) ∷ encode bs

pub from_hex_char : ℕ → Option ℕ
from_hex_char c =
    if leb b'0' c && leb c b'9'
    then some (c - b'0')
    else if leb b'a' c && leb c b'f'
    then some (c - b'a' + 10)
    else if leb b'A' c && leb c b'F'
    then some (c - b'A' + 10)
    else none

pub data HexError : Type 0 where
  invalid_byte : ℕ → HexError
  err_length : HexError

-- One pair of digits in front of what the rest decodes to.
abbrev decode_pair :
    Option ℕ → Option ℕ → ℕ → ℕ → List ℕ × Option HexError → List ℕ × Option HexError
decode_pair none low p q rest = ([], some (invalid_byte p))
decode_pair (some a) none p q rest = ([], some (invalid_byte q))
decode_pair (some a) (some b) p q rest = ((a * 16 + b) ∷ rest.0, rest.1)

abbrev decode_odd : Option ℕ → ℕ → HexError
decode_odd none p = invalid_byte p
decode_odd (some a) p = err_length

-- hex.DecodeString: the bytes before the first error, and the error.
unfoldable pub decode_string : List ℕ → List ℕ × Option HexError
unfolding from_hex_char
decode_string [] = ([], none)
decode_string (p ∷ []) = ([], some (decode_odd (from_hex_char p) p))
decode_string (p ∷ q ∷ rest) =
    let tail = decode_string rest in decode_pair (from_hex_char p) (from_hex_char q) p q tail

-- func has0xPrefix(input string) bool
pub has0x_prefix : List ℕ → Bool
has0x_prefix (a ∷ b ∷ rest) = a == b'0' && (b == b'x' || b == b'X')
has0x_prefix input = false

pub data DecError : Type 0 where
  err_empty_string : DecError
  err_missing_prefix : DecError
  err_syntax : DecError
  err_odd_length : DecError

-- func mapError(err error) error, on the errors of encoding/hex
pub map_error : HexError → DecError
map_error (invalid_byte c) = err_syntax
map_error err_length = err_odd_length

abbrev map_option : Option HexError → Option DecError
map_option none = none
map_option (some e) = some (map_error e)

abbrev drop_two : List ℕ → List ℕ
drop_two (a ∷ b ∷ rest) = rest
drop_two input = []

-- func Decode(input string) ([]byte, error)
unfoldable pub decode : List ℕ → List ℕ × Option DecError
unfolding has0x_prefix map_error
decode [] = ([], some err_empty_string)
decode (c ∷ cs) =
    let (b, err) = decode_string (drop_two (c ∷ cs)) in
    if has0x_prefix (c ∷ cs) then (b, map_option err) else ([], some err_missing_prefix)

digit_lem : (d : ℕ) → d < 16 → from_hex_char (hex_digit d) ≡ some d
unfolding from_hex_char hex_digit
digit_lem d h = ground arith

-- Decoding what was encoded gives back the bytes, without an error.
pub decode_string-encode : (bs : List ℕ) → AreBytes bs → decode_string (encode bs) ≡ (bs, none)
unfolding decode_string encode
decode_string-encode [] h = refl
decode_string-encode (b ∷ bs) (hb, hs) =
    rw
      (
        digit_lem (b / 16) (omega arith),
        digit_lem (b % 16) (omega arith),
        decode_string-encode bs hs,
      )
      (ap (λ (x : ℕ). (x ∷ bs, none)) (omega arith))

not_x : (d : ℕ) → d < 16 → (hex_digit d == b'x' || hex_digit d == b'X') ≡ false
unfolding hex_digit
not_x d h = ground arith

no_prefix : (b : ℕ) (bs : List ℕ) → b < 256 → has0x_prefix (encode (b ∷ bs)) ≡ false
unfolding encode has0x_prefix
no_prefix b bs h = rw (not_x (b % 16) (omega arith)) (ground arith)

-- No encoding begins with 0x or 0X.
pub plain_head :
    (b : ℕ) → b < 256 → (hex_digit (b % 16) == b'x' || hex_digit (b % 16) == b'X') ≡ false
plain_head b h = not_x (b % 16) (omega arith)

without_prefix :
    (b : ℕ) (bs : List ℕ)
    → has0x_prefix (encode (b ∷ bs)) ≡ false
    → decode (encode (b ∷ bs)) ≡ ([], some err_missing_prefix)
unfolding encode decode
without_prefix b bs e = rw e

-- For bytes, at least one, Decode takes their encoding with 0x in front and gives them back, and
-- refuses the encoding as Encode writes it, for the missing prefix.
pub decode-encode :
    (b : ℕ) (bs : List ℕ)
    → AreBytes (b ∷ bs)
    → (decode (b'0' ∷ b'x' ∷ encode (b ∷ bs)) ≡ (b ∷ bs, none))
      × (decode (encode (b ∷ bs)) ≡ ([], some err_missing_prefix))
unfolding decode has0x_prefix
decode-encode b bs h =
    (rw (decode_string-encode (b ∷ bs) h), without_prefix b bs (no_prefix b bs h.0))

pub length-encode : (bs : List ℕ) → length (encode bs) ≡ 2 * length bs
unfolding encode
length-encode [] = refl
length-encode (b ∷ bs) = omega (arith, length-encode bs)
