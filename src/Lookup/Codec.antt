-- ===== src/Lookup/Codec.antt =====
-- The byte forms of an epoch (pkg/feed/lookup/epoch.go): ID, MarshalBinary, UnmarshalBinary.
use fair_os_dfs.Prelude.{
  ℕ, zero, suc, ◌+◌, ◌*◌, ◌/◌, ◌%◌, ◌^◌, ◌<◌, ◌≡◌, ◌↔◌, true, List, [], ◌∷◌, arith, ◌==◌,
  if◌then◌else◌, length, get_or, set,
}
use fair_os_dfs.Prelude.Result.{Result, ok, err}
use fair_os_dfs.Lookup.{Epoch, base, equals}

-- binary.LittleEndian.PutUint64, for a number of `n` bytes
put_uint_le : ℕ → ℕ → List ℕ
put_uint_le zero x = []
put_uint_le (suc n) x = x % 256 ∷ put_uint_le n (x / 256)

-- binary.LittleEndian.Uint64
unfoldable pub uint_le : List ℕ → ℕ
uint_le [] = 0
uint_le (b ∷ bs) = b + 256 * uint_le bs

pub data EpochError : Type 0 where
  invalid_data : EpochError

-- const EpochLength = 8
abbrev epoch_length : ℕ
epoch_length = 8

-- func (e *Epoch) ID() EpochID
pub id : Epoch → List ℕ
unfolding put_uint_le
id e = set (put_uint_le 8 (base e)) 7 e.level

-- func (e *Epoch) MarshalBinary() (data []byte, err error)
pub marshal_binary : Epoch → List ℕ
unfolding put_uint_le
marshal_binary e = set (put_uint_le 8 e.time) 7 e.level

-- func (e *Epoch) UnmarshalBinary(data []byte) error
unfoldable pub unmarshal_binary : List ℕ → Result EpochError Epoch
unfolding uint_le
unmarshal_binary bytes =
    if length bytes == epoch_length
    then ok (record { time = uint_le (set bytes 7 0); level = get_or bytes 7 0 })
    else err invalid_data

-- Unmarshalling what was marshalled gives back the level and the low 56 bits of the time.
pub unmarshal_binary-marshal_binary :
    (e : Epoch)
    → unmarshal_binary (marshal_binary e) ≡ ok (record { time = e.time % 2 ^ 56; level = e.level })
unfolding unmarshal_binary marshal_binary
unmarshal_binary-marshal_binary e = ground arith

abbrev AreBytes : List ℕ → Type 0
AreBytes [] = Unit
AreBytes (b ∷ bs) = (b < 256) × AreBytes bs

-- Marshalling what was unmarshalled from a list of bytes gives back those bytes.
pub marshal_binary-unmarshal_binary :
    (bytes : List ℕ) (e : Epoch)
    → AreBytes bytes
    → unmarshal_binary bytes ≡ ok e
    → marshal_binary e ≡ bytes
unfolding unmarshal_binary marshal_binary
marshal_binary-unmarshal_binary (a ∷ b ∷ c ∷ d ∷ f ∷ g ∷ h ∷ i ∷ []) e p q = ground arith
marshal_binary-unmarshal_binary bytes e p q = ground arith

-- Below 2 ^ 56 seconds two epochs have one ID exactly when Equals holds of them.
pub id_iff : (e f : Epoch) → base e < 2 ^ 56 → base f < 2 ^ 56 → (id e ≡ id f) ↔ (equals e f ≡ true)
unfolding id equals
id_iff e f he hf = ground arith
