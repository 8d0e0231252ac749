-- ===== src/Password/Tests.antt =====
-- The round trip of a hash at a concrete derivation.
use imageboard.Base.{
  ℕ, zero, suc, ◌≡◌, refl, subst, true, some, replicate, arith, length, length-replicate,
}
use imageboard.Text.{codes, AreBytes, hex_encode}
use imageboard.Password.{Derive, verify_password, hash_password, encoded_hash}
use imageboard.Password.RoundTrip.{GivesLength, verify-hash_password}

abbrev constant_derive : Derive
constant_derive password salt cost block parallel len = some (replicate len 7)

AreBytes-replicate : (n : ℕ) → AreBytes (replicate n 7)
AreBytes-replicate zero = tt
AreBytes-replicate (suc n) = (omega arith, AreBytes-replicate n)

constant-GivesLength : GivesLength constant_derive
constant-GivesLength password salt cost block parallel len digest e =
    let same : replicate len 7 ≡ digest = cc in
    subst (λ d. (length d ≡ len) × AreBytes d) same (length-replicate len 7, AreBytes-replicate len)

verify-hash_password_example :
    verify_password constant_derive
      (encoded_hash (codes "01010101010101010101010101010101") (replicate 64 7))
      (codes "secret")
    ≡ true
unfolding hash_password hex_encode
verify-hash_password_example =
    verify-hash_password constant_derive (replicate 16 1) (codes "secret") constant-GivesLength
      (AreBytes-replicate_one 16) refl refl
  where
    AreBytes-replicate_one : (n : ℕ) → AreBytes (replicate n 1)
    AreBytes-replicate_one zero = tt
    AreBytes-replicate_one (suc n) = (omega arith, AreBytes-replicate_one n)
