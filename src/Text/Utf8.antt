-- ===== src/Text/Utf8.antt =====
-- Go's decoding of a string into runes (`range`, `unicode/utf8`), and the tests of `unicode` whose
-- sets are short. A byte that starts no valid encoding is the rune U+FFFD, of width 1.
use imageboard.Base.{
  ℕ, zero, suc, ◌+◌, ◌-◌, ◌*◌, ◌/◌, ◌%◌, ◌≡◌, refl, Bool, true, false, ◌&&◌, ◌||◌, not, List, [],
  ◌∷◌, ◌++◌, map, ltb, leb, ◌==◌, if◌then◌else◌, length,
}
use imageboard.Text.Compare.{Bytes, all_bool}

abbrev pub within : ℕ → ℕ → ℕ → Bool
within lo hi b = leb lo b && leb b hi

-- A rune and the number of bytes that it takes.
abbrev pub Decoded : Type 0
Decoded = ℕ × ℕ

abbrev pub rune_error : Decoded
rune_error = (0xFFFD, 1)

-- The range that the second byte of an encoding must be in, by the first byte.
abbrev second_ok : ℕ → ℕ → Bool
second_ok a b =
    if a == 0xE0
    then within 0xA0 0xBF b
    else if a == 0xED
    then within 0x80 0x9F b
    else if a == 0xF0
    then within 0x90 0xBF b
    else if a == 0xF4
    then within 0x80 0x8F b
    else within 0x80 0xBF b

abbrev continues : ℕ → Bool
continues = within 0x80 0xBF

two_bytes : ℕ → Bytes → Decoded
two_bytes a (b ∷ _) = if continues b then ((a - 0xC0) * 64 + (b - 0x80), 2) else rune_error
two_bytes a [] = rune_error

three_bytes : ℕ → Bytes → Decoded
three_bytes a (b ∷ c ∷ _) =
    if second_ok a b && continues c
    then ((a - 0xE0) * 4096 + (b - 0x80) * 64 + (c - 0x80), 3)
    else rune_error
three_bytes a _ = rune_error

four_bytes : ℕ → Bytes → Decoded
four_bytes a (b ∷ c ∷ d ∷ _) =
    if second_ok a b && continues c && continues d
    then ((a - 0xF0) * 262144 + (b - 0x80) * 4096 + (c - 0x80) * 64 + (d - 0x80), 4)
    else rune_error
four_bytes a _ = rune_error

-- `utf8.DecodeRuneInString` of a text that begins with the byte `a`.
decode_rune : ℕ → Bytes → Decoded
unfolding two_bytes three_bytes four_bytes
decode_rune a s =
    if ltb a 0x80
    then (a, 1)
    else if within 0xC2 0xDF a
    then two_bytes a s
    else if within 0xE0 0xEF a
    then three_bytes a s
    else if within 0xF0 0xF4 a
    then four_bytes a s
    else rune_error

-- The runes of a text, with `k` bytes of the rune before still to pass.
decode_from : ℕ → Bytes → List Decoded
decode_from k [] = []
decode_from (suc k) (_ ∷ s) = decode_from k s
decode_from zero (a ∷ s) = let d = decode_rune a s in d ∷ decode_from (d.1 - 1) s

unfoldable pub decode : Bytes → List Decoded
unfolding decode_from decode_rune
decode s = decode_from 0 s

unfoldable pub runes : Bytes → List ℕ
unfolding decode
runes s = map (λ (d : Decoded). d.0) (decode s)

-- `utf8.ValidString`
unfoldable pub valid_utf8 : Bytes → Bool
unfolding decode
valid_utf8 s = all_bool (λ (d : Decoded). not (d.1 == 1) || ltb d.0 0x80) (decode s)

-- `utf8.RuneCountInString`
unfoldable pub rune_count : Bytes → ℕ
unfolding decode
rune_count s = length (decode s)

-- `unicode.IsControl`
abbrev pub is_control : ℕ → Bool
is_control r = ltb r 0x20 || within 0x7F 0x9F r

-- `unicode.IsSpace`
abbrev pub is_space : ℕ → Bool
is_space r =
    within 9 13 r
    || r == 0x20
    || r == 0x85
    || r == 0xA0
    || r == 0x1680
    || within 0x2000 0x200A r
    || r == 0x2028
    || r == 0x2029
    || r == 0x202F
    || r == 0x205F
    || r == 0x3000

-- `utf8.AppendRune`, for the runes that `decode` gives
unfoldable pub encode_rune : ℕ → Bytes
encode_rune r =
    if ltb r 0x80
    then r ∷ []
    else if ltb r 0x800
    then (0xC0 + r / 64) ∷ (0x80 + r % 64) ∷ []
    else if ltb r 0x10000
    then (0xE0 + r / 4096) ∷ (0x80 + r / 64 % 64) ∷ (0x80 + r % 64) ∷ []
    else (0xF0 + r / 262144) ∷ (0x80 + r / 4096 % 64) ∷ (0x80 + r / 64 % 64) ∷ (0x80 + r % 64) ∷ []

unfoldable pub encode : List ℕ → Bytes
unfolding encode_rune
encode [] = []
encode (r ∷ rs) = encode_rune r ++ encode rs

-- é is two bytes, and a lone 0xA0 is no rune.
decode_example : runes (0xC3 ∷ 0xA9 ∷ 0x41 ∷ 0xA0 ∷ []) ≡ 0xE9 ∷ 0x41 ∷ 0xFFFD ∷ []
unfolding runes
decode_example = refl

encode_example : encode (runes (0xE2 ∷ 0x82 ∷ 0xAC ∷ [])) ≡ 0xE2 ∷ 0x82 ∷ 0xAC ∷ []
unfolding runes encode
encode_example = refl

-- A byte of ASCII is a rune of its own.
pub valid_utf8_ascii : (a : ℕ) (s : Bytes) → ltb a 0x80 ≡ true → valid_utf8 (a ∷ s) ≡ valid_utf8 s
unfolding valid_utf8 decode_from decode_rune
valid_utf8_ascii a s h = rw (h, decode_rune) (rw h refl)

-- The first byte of é alone, and é.
pub valid_utf8_half : valid_utf8 (0xC3 ∷ []) ≡ false
unfolding valid_utf8 decode_from decode_rune two_bytes
valid_utf8_half = refl

pub valid_utf8_accent : (s : Bytes) → valid_utf8 (0xC3 ∷ 0xA9 ∷ s) ≡ valid_utf8 s
unfolding valid_utf8 decode_from decode_rune two_bytes
valid_utf8_accent s = refl
