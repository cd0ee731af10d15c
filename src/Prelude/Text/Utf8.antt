-- ===== src/Prelude/Text/Utf8.antt =====
-- Go strings that are valid UTF-8 (unicode/utf8), which encoding/json keeps as they are.
use Prim.Native.Nat.{ℕ, zero, suc, ◌<◌}
use mathlib.Core.Path.{◌≡◌, refl, ◌∙◌, ap}
use mathlib.Core.Bool.{Bool, true, false, ◌&&◌}
use mathlib.Core.List.{[], ◌∷◌, ◌++◌}
use native.Mathlib.Omega.{arith}
use fair_os_dfs.Prelude.Tests.{◌==◌, ltb, leb, if◌then◌else◌}
use fair_os_dfs.Prelude.Text.{Text}

-- How many bytes follow a first byte, and the bounds of the next one; 0 after 255 is none.
unfoldable pub lead : ℕ → ℕ × ℕ × ℕ
lead c =
    if ltb c 128
    then (0, 128, 191)
    else if ltb c 194
    then (1, 255, 0)
    else if ltb c 224
    then (1, 128, 191)
    else if c == 224
    then (2, 160, 191)
    else if c == 237
    then (2, 128, 159)
    else if ltb c 240
    then (2, 128, 191)
    else if c == 240
    then (3, 144, 191)
    else if ltb c 244
    then (3, 128, 191)
    else if c == 244
    then (3, 128, 143)
    else (1, 255, 0)

-- Some bytes that follow a first one, the next of them between bounds, and then whole characters.
unfoldable pub follows : ℕ → ℕ → ℕ → Text → Bool
unfolding lead
follows zero lo hi [] = true
follows (suc k) lo hi [] = false
follows zero lo hi (c ∷ cs) = let (k, lo', hi') = lead c in follows k lo' hi' cs
follows (suc k) lo hi (c ∷ cs) = let rest = follows k 128 191 cs in leb lo c && leb c hi && rest

-- utf8.ValidString(s)
abbrev pub is_utf8 : Text → Bool
is_utf8 s = follows 0 128 191 s

-- Every byte is below 128.
abbrev pub IsAscii : Text → Type 0
IsAscii [] = Unit
IsAscii (c ∷ cs) = (c < 128) × IsAscii cs

lead_ascii : (c : ℕ) → c < 128 → lead c ≡ (0, 128, 191)
unfolding lead
lead_ascii c h = ground (arith, h)

-- An ASCII byte in front does not matter.
pub follows_ascii : (c : ℕ) (cs : Text) → c < 128 → is_utf8 (c ∷ cs) ≡ is_utf8 cs
unfolding follows
follows_ascii c cs h = ap (λ (l : ℕ × ℕ × ℕ). follows l.0 l.1 l.2 cs) (lead_ascii c h)

pub utf8_behind : (p s : Text) → IsAscii p → is_utf8 (p ++ s) ≡ is_utf8 s
utf8_behind [] s h = refl
utf8_behind (c ∷ p) s h = follows_ascii c (p ++ s) h.0 ∙ utf8_behind p s h.1

pub ascii_utf8 : (s : Text) → IsAscii s → is_utf8 s ≡ true
unfolding follows
ascii_utf8 [] h = refl
ascii_utf8 (c ∷ s) h = follows_ascii c s h.0 ∙ ascii_utf8 s h.1

both_true : (x y : Bool) → (x && y) ≡ true → (x ≡ true) × (y ≡ true)
both_true true y h = (refl, h)
both_true false y h = ground (arith, h)

follows-append :
    (k lo hi : ℕ) (s t : Text)
    → follows k lo hi s ≡ true
    → is_utf8 t ≡ true
    → follows k lo hi (s ++ t) ≡ true
unfolding follows
follows-append zero lo hi [] t h g = no_bounds t g
  where
    no_bounds : (t : Text) → is_utf8 t ≡ true → follows 0 lo hi t ≡ true
    no_bounds [] g = refl
    no_bounds (c ∷ t) g = g
follows-append (suc k) lo hi [] t h g = ground (arith, h)
follows-append zero lo hi (c ∷ s) t h g = follows-append (lead c).0 (lead c).1 (lead c).2 s t h g
follows-append (suc k) lo hi (c ∷ s) t h g =
    let (bounded, rest) = both_true (leb lo c && leb c hi) _ h in
    rw (bounded, follows-append k 128 191 s t rest g) refl

-- Valid texts make a valid text.
pub utf8-append : (s t : Text) → is_utf8 s ≡ true → is_utf8 t ≡ true → is_utf8 (s ++ t) ≡ true
utf8-append s t = follows-append 0 128 191 s t
