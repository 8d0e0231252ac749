-- ===== src/Password/RoundTrip.antt =====
-- Hashes as `hashPassword` writes them and `verifyPassword` reads them, go_api/cmd/api/users.go and
-- main.go.
use imageboard.Base.{
  ℕ, ◌≤◌, ◌≡◌, refl, ◌∷◌, [], ◌++◌, true, some, length, arith, Option-cases, inl, inr,
}
use imageboard.Text.{
  Bytes, codes, split, any_byte, Lacks, split-append_sep, split-Lacks_whole, parse_int, hex_encode,
  hex_decode-encode, length-hex_encode, AreBytes, bytes_eq_refl, has_prefix, trim_prefix,
}
use imageboard.Password.{Derive, verify_password, encoded_hash, hash_password}

-- What scrypt documents of its result: it has the length asked for, in bytes.
abbrev pub GivesLength : Derive → Type 0
GivesLength derive =
    (password salt : Bytes) (cost block parallel len : ℕ) (digest : Bytes)
    → derive password salt cost block parallel len ≡ some digest
    → (length digest ≡ len) × AreBytes digest

Lacks-hex_encode : (s : Bytes) → AreBytes s → Lacks b'$' (hex_encode s)
unfolding hex_encode any_byte
Lacks-hex_encode [] h = refl
Lacks-hex_encode (b ∷ s) (hb, hs) = ground (arith, Lacks-hex_encode s hs)

split-encoded_hash :
    (salt digest : Bytes)
    → Lacks b'$' salt
    → AreBytes digest
    → split b'$' (encoded_hash salt digest)
      ≡ codes "scrypt:32768:8:1" ∷ salt ∷ hex_encode digest ∷ []
unfolding encoded_hash
split-encoded_hash salt digest hs hd = rw (
  split-append_sep b'$' (codes "scrypt:32768:8:1") (salt ++ b'$' ∷ hex_encode digest)
      (unfold any_byte in refl),
  split-append_sep b'$' salt (hex_encode digest) hs,
  split-Lacks_whole b'$' (hex_encode digest) (Lacks-hex_encode digest hd),
)

verify-encoded_hash :
    (derive : Derive) (password salt digest : Bytes)
    → Lacks b'$' salt
    → 1 ≤ length salt
    → length salt ≤ 128
    → length digest ≡ 64
    → AreBytes digest
    → derive password salt 32768 8 1 64 ≡ some digest
    → verify_password derive (encoded_hash salt digest) password ≡ true
unfolding verify_password has_prefix trim_prefix split parse_int
verify-encoded_hash derive password salt digest hs lo hi len hd e =
    rw (split-encoded_hash salt digest hs hd, hex_decode-encode digest hd, len)
      (ground (arith, e, bytes_eq_refl digest))

-- A hash that `hashPassword` makes admits the password that it was made of.
pub verify-hash_password :
    (derive : Derive) (random password : Bytes) {stored : Bytes}
    → GivesLength derive
    → AreBytes random
    → length random ≡ 16
    → hash_password derive (some random) password ≡ some stored
    → verify_password derive stored password ≡ true
unfolding hash_password
verify-hash_password derive random password law bytes len h =
    elim (Option-cases (derive password (hex_encode random) 32768 8 1 64)) [
      | inl e ↦ ground arith
      | inr (digest, e) ↦ ground (
        arith,
        law password (hex_encode random) 32768 8 1 64 digest e,
        verify-encoded_hash derive password (hex_encode random) digest
            (Lacks-hex_encode random bytes) (omega (arith, length-hex_encode random))
            (omega (arith, length-hex_encode random))
            (law password (hex_encode random) 32768 8 1 64 digest e).0
            (law password (hex_encode random) 32768 8 1 64 digest e).1 e,
      )
    ]
