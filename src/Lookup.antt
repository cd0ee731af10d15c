-- ===== src/Lookup.antt =====
-- pkg/feed/lookup/epoch.go and lookup.go: the epochs at which the updates of a feed are placed.
-- A `uint64` is a number below 2 ^ 64 with its wrap-around written out; a `uint8` likewise.
pub mod BaseTime
pub mod NextLevel
pub mod Codec
pub mod Fluz
pub mod Period
pub mod Tree
pub mod Placement
use fair_os_dfs.Prelude.{
  ℕ, zero, suc, ◌+◌, ◌-◌, ◌*◌, ◌/◌, ◌%◌, ◌^◌, bit_and, bit_or, bit_xor, Bool, ◌&&◌, List, [], ◌∷◌,
  ltb, leb, ◌==◌, if◌then◌else◌, get_or, set, length,
}
use fair_os_dfs.Prelude.Result.{Result, ok, err}

-- type Epoch struct
pub record Epoch : Type 0 where
  pub time : ℕ
  pub level : ℕ

-- const maxuint64 = ^uint64(0)
abbrev pub maxuint64 : ℕ
maxuint64 = 2 ^ 64 - 1

abbrev pub lowest_level : ℕ
lowest_level = 0

abbrev pub highest_level : ℕ
highest_level = 31

-- var NoClue = Epoch{}
abbrev pub no_clue : Epoch
no_clue = record { time = 0; level = 0 }

-- var worstHint = Epoch{Time: 0, Level: 63}
abbrev pub worst_hint : Epoch
worst_hint = record { time = 0; level = 63 }

-- x << k on uint64
abbrev pub shl64 : ℕ → ℕ → ℕ
shl64 x k = x * 2 ^ k % 2 ^ 64

-- e == f on the struct
abbrev pub epoch_eq : Epoch → Epoch → Bool
epoch_eq e f = e.time == f.time && e.level == f.level

unfoldable pub get_base_time : ℕ → ℕ → ℕ
get_base_time t level = bit_and t (shl64 maxuint64 level)

-- func (e *Epoch) Base() uint64
unfoldable pub base : Epoch → ℕ
base e = get_base_time e.time e.level

-- func Hint(last uint64) Epoch
pub hint : ℕ → Epoch
hint last = record { time = last; level = highest_level }

-- func (e *Epoch) After(epoch Epoch) bool
pub after : Epoch → Epoch → Bool
after e f = if e.time == f.time then ltb e.level f.level else leb f.time e.time

-- func (e *Epoch) Equals(epoch Epoch) bool
unfoldable pub equals : Epoch → Epoch → Bool
equals e f = e.level == f.level && base e == base f

-- the loop `for i := uint8(HighestLevel); i > LowestLevel; i--` at the counter's value
unfoldable pub scan_mask : ℕ → ℕ → ℕ → ℕ
scan_mask zero mask mix = 0
scan_mask (suc i) mask mix =
    let rest = scan_mask i (mask / 2) mix in if bit_and mix mask == 0 then rest else suc i

-- `last.Base() ^ now`, with the bit below the last level set; `last.Level - 1` wraps on uint8
unfoldable pub mix_bits : Epoch → ℕ → ℕ
mix_bits last now = bit_or (bit_xor (base last) now) (shl64 1 ((last.level + 255) % 256))

-- func GetNextLevel(last Epoch, now uint64) uint8
unfoldable pub get_next_level : Epoch → ℕ → ℕ
unfolding mix_bits scan_mask
get_next_level last now =
    let mix = mix_bits last now in
    if ltb (maxuint64 / 2 ^ (64 - highest_level - 1)) mix
    then highest_level
    else scan_mask highest_level (2 ^ highest_level) mix

-- func GetFirstEpoch(now uint64) Epoch
unfoldable pub get_first_epoch : ℕ → Epoch
get_first_epoch now = record { time = now; level = highest_level }

-- func GetNextEpoch(last Epoch, now uint64) Epoch
unfoldable pub get_next_epoch : Epoch → ℕ → Epoch
unfolding get_first_epoch
get_next_epoch last now =
    if epoch_eq last no_clue
    then get_first_epoch now
    else record { time = now; level = get_next_level last now }
