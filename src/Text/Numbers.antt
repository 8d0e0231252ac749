-- ===== src/Text/Numbers.antt =====
-- `strconv.Atoi`, `strconv.ParseInt` in base 10, and `encoding/hex`.
use imageboard.Base.{
  zero, suc, ◌++◌, ℕ, ◌+◌, ◌-◌, ◌*◌, ◌/◌, ◌%◌, ◌^◌, ◌<◌, ◌≡◌, refl, Bool, true, false, ◌&&◌, Option,
  none, some, [], ◌∷◌, ltb, leb, ◌==◌, if◌then◌else◌, arith, length,
}
use imageboard.Text.Compare.{Bytes, All, codes}

-- A signed number as its sign (is it negative?) and its size.
abbrev pub Signed : Type 0
Signed = Bool × ℕ

-- The value of decimal digits behind `n`; `none` at any other byte.
digits_value : ℕ → Bytes → Option ℕ
digits_value n [] = some n
digits_value n (c ∷ s) =
    let rest = digits_value (n * 10 + (c - b'0')) s in
    if leb b'0' c && leb c b'9' then rest else none

-- One digit or more.
unsigned : Bytes → Option ℕ
unfolding digits_value
unsigned [] = none
unsigned (c ∷ s) = digits_value 0 (c ∷ s)

-- The value must lie between -bound and bound - 1.
in_range : ℕ → Bool → Option ℕ → Option Signed
in_range bound negative none = none
in_range bound true (some n) = if leb n bound then some (true, n) else none
in_range bound false (some n) = if ltb n bound then some (false, n) else none

-- `strconv.ParseInt(s, 10, bits)` with `bound` = 2 ^ (bits - 1); `none` is any error.
unfoldable pub parse_int : ℕ → Bytes → Option Signed
unfolding unsigned in_range
parse_int bound [] = none
parse_int bound (c ∷ s) =
    if c == b'-'
    then in_range bound true (unsigned s)
    else if c == b'+'
    then in_range bound false (unsigned s)
    else in_range bound false (unsigned (c ∷ s))

abbrev pub int32_bound : ℕ
int32_bound = 2 ^ 31

abbrev pub int64_bound : ℕ
int64_bound = 2 ^ 63

-- The value, if it is 1 or more.
abbrev pub positive : Option Signed → Option ℕ
positive none = none
positive (some (true, n)) = none
positive (some (false, n)) = if n == 0 then none else some n

in_range_lt :
    (bound : ℕ) (negative : Bool) (o : Option ℕ) {n : ℕ}
    → positive (in_range bound negative o) ≡ some n
    → (0 < n) × (n < bound)
unfolding in_range
in_range_lt bound negative none h = ground arith
in_range_lt bound true (some m) h = ground arith
in_range_lt bound false (some m) h = ground arith

-- A positive value that is parsed fits its type.
pub parse_int_bounds :
    (bound : ℕ) (s : Bytes) {n : ℕ} → positive (parse_int bound s) ≡ some n → (0 < n) × (n < bound)
unfolding parse_int
parse_int_bounds bound [] h = ground arith
parse_int_bounds bound (c ∷ s) h = ground (
  arith,
  in_range_lt bound true (unsigned s),
  in_range_lt bound false (unsigned s),
  in_range_lt bound false (unsigned (c ∷ s)),
)

parse_int_example : positive (parse_int int32_bound (codes "2147483647")) ≡ some 2147483647
unfolding parse_int
parse_int_example = refl

parse_int_overflow : parse_int int32_bound (codes "2147483648") ≡ none
unfolding parse_int
parse_int_overflow = refl

-- `hex.EncodeToString`
hex_digit : ℕ → ℕ
hex_digit n = if ltb n 10 then b'0' + n else b'a' + (n - 10)

unfoldable pub hex_encode : Bytes → Bytes
unfolding hex_digit
hex_encode [] = []
hex_encode (b ∷ s) = hex_digit (b / 16) ∷ hex_digit (b % 16) ∷ hex_encode s

unfoldable pub hex_value : ℕ → Option ℕ
hex_value c =
    if leb b'0' c && leb c b'9'
    then some (c - b'0')
    else if leb b'a' c && leb c b'f'
    then some (c - b'a' + 10)
    else if leb b'A' c && leb c b'F'
    then some (c - b'A' + 10)
    else none

abbrev pub add_byte : Option ℕ → Option ℕ → Option Bytes → Option Bytes
add_byte (some h) (some l) (some s) = some ((h * 16 + l) ∷ s)
add_byte _ _ _ = none

-- `hex.DecodeString`
unfoldable pub hex_decode : Bytes → Option Bytes
unfolding hex_value
hex_decode [] = some []
hex_decode (c ∷ []) = none
hex_decode (c ∷ d ∷ s) = add_byte (hex_value c) (hex_value d) (hex_decode s)

hex_value-digit : (n : ℕ) → n < 16 → hex_value (hex_digit n) ≡ some n
unfolding hex_value hex_digit
hex_value-digit n h = ground arith

abbrev pub AreBytes : Bytes → Type 0
AreBytes = All (λ b. b < 256)

pub hex_decode-encode : (s : Bytes) → AreBytes s → hex_decode (hex_encode s) ≡ some s
hex_decode-encode [] h = unfold hex_decode hex_encode in refl
hex_decode-encode (b ∷ s) (hb, hs) = step (hex_decode-encode s hs)
  where
    same : b / 16 * 16 + b % 16 ≡ b
    same = omega arith

    step : hex_decode (hex_encode s) ≡ some s → hex_decode (hex_encode (b ∷ s)) ≡ some (b ∷ s)
    step ih =
        unfold hex_decode hex_encode in
        rw
          (hex_value-digit (b / 16) (omega arith), hex_value-digit (b % 16) (omega arith), ih, same)

pub length-hex_encode : (s : Bytes) → length (hex_encode s) ≡ 2 * length s
unfolding hex_encode
length-hex_encode [] = refl
length-hex_encode (b ∷ s) = omega (arith, length-hex_encode s)

-- Each digit costs a unit of fuel; a number has fewer digits than its value and one more.
itoa_from : ℕ → ℕ → Bytes
itoa_from zero n = []
itoa_from (suc f) n = elim (ltb n 10) [
  | true ↦ (b'0' + n) ∷ []
  | false ↦ itoa_from f (n / 10) ++ (b'0' + n % 10) ∷ []
]

-- `strconv.Itoa` of a number that is not negative
unfoldable pub itoa : ℕ → Bytes
unfolding itoa_from
itoa n = itoa_from (suc n) n
