-- ===== src/Utils/Decimal.antt =====
-- Go's strconv.FormatInt and ParseInt for base 10 and 64 bits, as pkg/utils/sharing.go uses them.
use fair_os_dfs.Prelude.{
  ℕ, zero, suc, ◌+◌, ◌-◌, ◌*◌, ◌/◌, ◌%◌, ◌^◌, ◌<◌, ◌≤◌, ◌≡◌, refl, ap, ◌∙◌, inl, inr, true, false,
  ◌&&◌, [], ◌∷◌, ◌++◌, Option, none, some, arith, ltb, leb, ◌==◌, if◌then◌else◌, Bool-cases, ltb→lt,
}
use fair_os_dfs.Prelude.Result.{Result, ok, err}
use fair_os_dfs.Prelude.Text.{Text}

-- int64
pub data Int64 : Type 0 where
  pos : ℕ → Int64
  negsuc : ℕ → Int64

-- the decimal digits of a number below 10 ^ fuel
unfoldable pub digits : ℕ → ℕ → Text
digits zero n = []
digits (suc fuel) n =
    let before = digits fuel (n / 10) in
    if ltb n 10 then (b'0' + n) ∷ [] else before ++ (b'0' + n % 10) ∷ []

-- strconv.FormatInt(n, 10)
unfoldable pub format_int : Int64 → Text
format_int (pos n) = digits 20 n
format_int (negsuc n) = b'-' ∷ digits 20 (n + 1)

abbrev with_digit : Option ℕ → ℕ → Option ℕ
with_digit none c = none
with_digit (some a) c = if leb b'0' c && leb c b'9' then some (a * 10 + (c - b'0')) else none

-- the digits of a number, behind those that make `acc`
unfoldable pub parse_digits : Option ℕ → Text → Option ℕ
parse_digits acc [] = acc
parse_digits acc (c ∷ cs) = parse_digits (with_digit acc c) cs

pub data NumError : Type 0 where
  err_syntax : NumError
  err_range : NumError

abbrev positive : Option ℕ → Result NumError Int64
positive none = err err_syntax
positive (some n) = if ltb n (2 ^ 63) then ok (pos n) else err err_range

abbrev negative : Option ℕ → Result NumError Int64
negative none = err err_syntax
negative (some n) =
    if n == 0 then ok (pos 0) else if leb n (2 ^ 63) then ok (negsuc (n - 1)) else err err_range

abbrev unsigned : Text → Option ℕ
unsigned [] = none
unsigned (c ∷ cs) = parse_digits (some 0) (c ∷ cs)

-- strconv.ParseInt(s, 10, 64)
unfoldable pub parse_int : Text → Result NumError Int64
parse_int [] = err err_syntax
parse_int (c ∷ cs) =
    if c == b'+'
    then positive (unsigned cs)
    else if c == b'-'
    then negative (unsigned cs)
    else positive (unsigned (c ∷ cs))

parse_digits-append :
    (acc : Option ℕ) (s : Text) (c : ℕ)
    → parse_digits acc (s ++ c ∷ []) ≡ with_digit (parse_digits acc s) c
unfolding parse_digits
parse_digits-append acc [] c = refl
parse_digits-append acc (x ∷ s) c = parse_digits-append (with_digit acc x) s c

digit_read : (a d : ℕ) → d < 10 → with_digit (some a) (b'0' + d) ≡ some (a * 10 + d)
digit_read a d h = ground arith

abbrev power_ten : ℕ → ℕ
power_ten zero = 1
power_ten (suc fuel) = 10 * power_ten fuel

parse_digits-digits :
    (fuel n : ℕ) → n < power_ten fuel → parse_digits (some 0) (digits fuel n) ≡ some n
unfolding digits parse_digits
parse_digits-digits zero n h = ap some (omega arith)
parse_digits-digits (suc fuel) n h =
    let ih = parse_digits-digits fuel (n / 10) (omega arith) in
    let last = parse_digits-append (some 0) (digits fuel (n / 10)) (b'0' + n % 10) in
    elim (Bool-cases (ltb n 10)) [
      | inl e ↦
          let small : n < 10 = ltb→lt n 10 e in rw e (digit_read 0 n small ∙ ap some (omega arith))
      | inr e ↦
          rw (e, last, ih) (digit_read (n / 10) (n % 10) (omega arith) ∙ ap some (omega arith))
    ]

-- The text of a number begins with a digit.
abbrev pub Begins : Text → Type 0
Begins [] = ⊥
Begins (c ∷ cs) = b'0' ≤ c

Begins-append : (s t : Text) → Begins s → Begins (s ++ t)
Begins-append [] t h = absurd h
Begins-append (c ∷ cs) t h = h

pub digits-Begins : (fuel n : ℕ) → Begins (digits (suc fuel) n)
unfolding digits
digits-Begins zero n = elim (Bool-cases (ltb n 10)) [
  | inl e ↦ rw e (omega arith)
  | inr e ↦ rw e (omega arith)
]
digits-Begins (suc fuel) n = elim (Bool-cases (ltb n 10)) [
  | inl e ↦ rw e (omega arith)
  | inr e ↦ rw e (Begins-append (digits (suc fuel) (n / 10)) _ (digits-Begins fuel (n / 10)))
]

unsigned_whole : (s : Text) → Begins s → unsigned s ≡ parse_digits (some 0) s
unsigned_whole [] h = absurd h
unsigned_whole (c ∷ cs) h = refl

parse_unsigned : (s : Text) → Begins s → parse_int s ≡ positive (unsigned s)
unfolding parse_int
parse_unsigned [] h = absurd h
parse_unsigned (c ∷ cs) h =
    let plus : (c == b'+') ≡ false = ground arith in
    let minus : (c == b'-') ≡ false = ground arith in rw (plus, minus)

abbrev pub Fits64 : Int64 → Type 0
Fits64 (pos n) = n < 2 ^ 63
Fits64 (negsuc n) = n < 2 ^ 63

pub parse_int-format_int : (n : Int64) → Fits64 n → parse_int (format_int n) ≡ ok n
unfolding format_int parse_int
parse_int-format_int (pos n) h =
    let read =
      unsigned_whole (digits 20 n) (digits-Begins 19 n) ∙ parse_digits-digits 20 n (omega arith) in
    parse_unsigned (digits 20 n) (digits-Begins 19 n) ∙ rw (read) (ground arith)
parse_int-format_int (negsuc n) h =
    let read =
      unsigned_whole (digits 20 (n + 1)) (digits-Begins 19 (n + 1))
      ∙ parse_digits-digits 20 (n + 1) (omega arith) in
    let nonzero : (n + 1 == 0) ≡ false = ground arith in
    let small : leb (n + 1) (2 ^ 63) ≡ true = ground (arith, h) in
    let back : n + 1 - 1 ≡ n = omega arith in rw (read, nonzero, small, back)
