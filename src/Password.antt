-- ===== src/Password.antt =====
-- Password hashes, go_api/cmd/api/main.go (`verifyPassword`) and users.go (`hashPassword`,
-- `validUsername`, `validNewPassword`). scrypt is a parameter; the semaphore around it is left out.
mod Tests
pub mod RoundTrip
use imageboard.Base.{
  ℕ, ◌≤◌, ◌∷◌, [], ◌++◌, List, Bool, true, false, ◌&&◌, ◌||◌, not, Option, none, some, leb, ltb,
  if◌then◌else◌, length, ◌==◌,
}
use imageboard.Text.{
  Bytes, codes, split, has_prefix, trim_prefix, parse_int, positive, int64_bound, hex_decode,
  hex_encode, bytes_eq, Signed, valid_utf8, rune_count, runes, is_control, is_space, any_byte,
}

-- `scrypt.Key(password, salt, cost, block, parallelism, length)`; `none` is its error.
abbrev pub Derive : Type 0
Derive = Bytes → Bytes → ℕ → ℕ → ℕ → ℕ → Option Bytes

-- `strconv.Atoi`, and a value from `lo`, which is 1 or more, to `hi`.
unfoldable pub limited : ℕ → ℕ → Option Signed → Option ℕ
limited lo hi o = elim (positive o) [
  | none ↦ none
  | some n ↦ if leb lo n && leb n hi then some n else none
]

abbrev pub derived_eq : Option Bytes → Bytes → Bool
derived_eq none digest = false
derived_eq (some derived) digest = bytes_eq derived digest

-- With the parameters read: cost, block size, parallelism, digest.
unfoldable pub verify_read :
    Derive → Bytes → Bytes → Option ℕ → Option ℕ → Option ℕ → Option Bytes → Bool
verify_read derive password salt (some cost) (some block) (some parallel) (some digest) =
    if (length digest == 64) && leb 1 (length salt) && leb (length salt) 128
    then derived_eq (derive password salt cost block parallel (length digest)) digest
    else false
verify_read derive password salt _ _ _ _ = false

unfoldable pub verify_params : Derive → Bytes → List Bytes → Bytes → Bytes → Bool
unfolding verify_read limited
verify_params derive password (cost ∷ block ∷ parallel ∷ []) salt digest =
    verify_read derive password salt (limited 2 32768 (parse_int int64_bound cost))
      (limited 1 16 (parse_int int64_bound block)) (limited 1 4 (parse_int int64_bound parallel))
      (hex_decode digest)
verify_params derive password _ salt digest = false

unfoldable pub verify_parts : Derive → Bytes → List Bytes → Bool
unfolding verify_params
verify_parts derive password (scheme ∷ salt ∷ digest ∷ []) =
    if has_prefix scheme (codes "scrypt:")
    then verify_params derive password (split b':' (trim_prefix scheme (codes "scrypt:"))) salt
        digest
    else false
verify_parts derive password _ = false

unfoldable pub verify_password : Derive → Bytes → Bytes → Bool
unfolding verify_parts
verify_password derive encoded password = verify_parts derive password (split b'$' encoded)

-- The text that is stored: `salt` is already in hex.
unfoldable pub encoded_hash : Bytes → Bytes → Bytes
encoded_hash salt digest = codes "scrypt:32768:8:1" ++ b'$' ∷ (salt ++ b'$' ∷ hex_encode digest)

-- `random` is what `rand.Read` gives, 16 bytes, or its error.
unfoldable pub hash_password : Derive → Option Bytes → Bytes → Option Bytes
unfolding encoded_hash
hash_password derive none password = none
hash_password derive (some random) password =
    let salt = hex_encode random in
    elim (derive password salt 32768 8 1 64) [
      | none ↦ none
      | some digest ↦ some (encoded_hash salt digest)
    ]

any_rune : (ℕ → Bool) → List ℕ → Bool
any_rune p [] = false
any_rune p (r ∷ rs) = p r || any_rune p rs

unfoldable pub contains_control : Bytes → Bool
unfolding any_rune
contains_control s = any_rune is_control (runes s)

last_is_space : List ℕ → Bool
last_is_space [] = false
last_is_space (r ∷ []) = is_space r
last_is_space (_ ∷ r ∷ rs) = last_is_space (r ∷ rs)

first_is_space : List ℕ → Bool
first_is_space [] = false
first_is_space (r ∷ _) = is_space r

-- `name == strings.TrimSpace(name)`: no white space at either end.
unfoldable pub is_trimmed : Bytes → Bool
unfolding first_is_space last_is_space
is_trimmed s = not (first_is_space (runes s)) && not (last_is_space (runes s))

unfoldable pub valid_username : Bytes → Bool
unfolding contains_control is_trimmed
valid_username name =
    valid_utf8 name
    && leb 3 (rune_count name)
    && leb (rune_count name) 100
    && is_trimmed name
    && not (any_byte (λ b. b == b':') name)
    && not (contains_control name)

unfoldable pub valid_new_password : Bytes → Bool
unfolding contains_control
valid_new_password password =
    valid_utf8 password
    && leb 14 (rune_count password)
    && leb (rune_count password) 256
    && leb (length password) 1024
    && not (contains_control password)
