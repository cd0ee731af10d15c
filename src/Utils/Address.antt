-- ===== src/Utils/Address.antt =====
-- Addresses: SetBytes, NewAddress, HexToAddress and what they use (pkg/utils/address.go). An
-- address is the list of its twenty bytes; Hex, which capitalises digits by a hash, is left out.
use fair_os_dfs.Prelude.{
  ℕ, ◌≤◌, inl, inr, refl, Bool-cases, ◌-◌, ◌*◌, ◌%◌, ◌≡◌, ◌&&◌, ◌||◌, false, List, [], ◌∷◌, ◌++◌,
  arith, ltb, ◌==◌, if◌then◌else◌, length, take, drop, replicate, length-append, length-take,
  length-drop,
}
use fair_os_dfs.Utils.Hex.{
  AreBytes, encode, decode_string, decode_string-encode, length-encode, plain_head,
}

-- const AddressLength = 20
abbrev pub address_length : ℕ
address_length = 20

-- func (a *Address) SetBytes(b []byte)
unfoldable pub set_bytes : List ℕ → List ℕ → List ℕ
set_bytes a b =
    let kept = if ltb (length a) (length b) then drop (length b - address_length) b else b in
    take (address_length - length kept) a ++ kept

-- func NewAddress(b []byte) Address, and bytesToAddress
pub new_address : List ℕ → List ℕ
unfolding set_bytes
new_address b = set_bytes (replicate address_length 0) b

-- func hex2Bytes(str string) []byte
pub hex2_bytes : List ℕ → List ℕ
hex2_bytes str = (decode_string str).0

-- s[2:] behind "0x" or "0X"
abbrev without0x : List ℕ → List ℕ
without0x (a ∷ b ∷ rest) =
    if (a == b'0' && b == b'x') || (a == b'0' && b == b'X') then rest else a ∷ b ∷ rest
without0x s = s

-- func fromHex(s string) []byte
pub from_hex : List ℕ → List ℕ
unfolding hex2_bytes
from_hex s =
    let digits = without0x s in
    hex2_bytes (if length digits % 2 == 1 then b'0' ∷ digits else digits)

-- func HexToAddress(s string) Address
pub hex_to_address : List ℕ → List ℕ
unfolding new_address from_hex
hex_to_address s = new_address (from_hex s)

filled :
    (a kept : List ℕ)
    → length a ≡ address_length
    → length kept ≤ address_length
    → length (take (address_length - length kept) a ++ kept) ≡ address_length
filled a kept h le = omega (
  arith,
  length-append (take (address_length - length kept) a) kept,
  length-take (address_length - length kept) a,
)

-- Setting any bytes in an address of twenty bytes leaves twenty bytes.
pub length-set_bytes :
    (a b : List ℕ) → length a ≡ address_length → length (set_bytes a b) ≡ address_length
unfolding set_bytes
length-set_bytes a b h = elim (Bool-cases (ltb (length a) (length b))) [
  | inl long ↦ rw long (
      filled a (drop (length b - address_length) b) h
        (omega (arith, length-drop (length b - address_length) b)))
  | inr fits ↦ rw fits (filled a b h (ground (arith, h)))
]

-- Twenty bytes are the address they set.
new_address_lem : (b : List ℕ) → length b ≡ address_length → new_address b ≡ b
unfolding new_address
new_address_lem b h =
    let all : address_length - length b ≡ 0 = omega arith in
    let short : ltb address_length (length b) ≡ false = ground arith in rw (short, all)

even_digits : (a : List ℕ) → (length (encode a) % 2 == 1) ≡ false
even_digits a = let e : 2 * length a % 2 ≡ 0 = omega arith in rw (length-encode a, e)

plain : (a : List ℕ) → AreBytes a → without0x (encode a) ≡ encode a
unfolding encode
plain [] h = refl
plain (b ∷ bs) (hb, hs) = ground (arith, plain_head b hb)

from_digits :
    (a : List ℕ)
    → AreBytes a
    → hex2_bytes (if length (encode a) % 2 == 1 then b'0' ∷ encode a else encode a) ≡ a
unfolding hex2_bytes
from_digits a h = rw (even_digits a, hex2_bytes, decode_string-encode a h)

-- The hex string of an address of twenty bytes, with 0x in front or without, is read back as the
-- address.
pub hex_to_address-encode :
    (a : List ℕ)
    → length a ≡ address_length
    → AreBytes a
    → (hex_to_address (encode a) ≡ a) × (hex_to_address (b'0' ∷ b'x' ∷ encode a) ≡ a)
unfolding hex_to_address
hex_to_address-encode a h hs = (
  rw (plain a hs, from_digits a hs) (new_address_lem a h),
  rw (from_digits a hs) (new_address_lem a h),
)
