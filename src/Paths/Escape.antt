-- ===== src/Paths/Escape.antt =====
-- Escaped paths and what `url.PathUnescape` makes of them, go_api/cmd/api/handlers.go
-- `encodedPath` and main.go `authorizeMedia`.
use imageboard.Base.{
  ℕ, ◌+◌, ◌*◌, ◌/◌, ◌%◌, ◌<◌, ◌≡◌, refl, ◌∷◌, [], ◌++◌, List, map, true, false, some, ◌==◌, arith,
  Bool-cases, inl, inr, append-nil,
}
use imageboard.Text.{
  Bytes, any_byte, any_byte-append, All, AreBytes, split, join, Lacks, push_front, hex_value,
}
use imageboard.Paths.{
  is_plain_byte, upper_hex, escape_byte, path_escape, prepend_hex, path_unescape,
}

hex_value-upper_hex : (n : ℕ) → n < 16 → hex_value (upper_hex n) ≡ some n
unfolding hex_value
hex_value-upper_hex n h = ground arith

path_unescape-plain :
    (c : ℕ) (s : Bytes) {t : Bytes}
    → (c == b'%') ≡ false
    → path_unescape s ≡ some t
    → path_unescape (c ∷ s) ≡ some (c ∷ t)
unfolding path_unescape
path_unescape-plain c [] h e = ground (arith, h, e)
path_unescape-plain c (a ∷ []) h e = rw (h, path_unescape, e) refl
path_unescape-plain c (a ∷ b ∷ s) h e = rw (h, path_unescape, e) refl

pub path_unescape-append :
    (p s : Bytes) {t : Bytes}
    → Lacks b'%' p
    → path_unescape s ≡ some t
    → path_unescape (p ++ s) ≡ some (p ++ t)
unfolding any_byte
path_unescape-append [] s h e = e
path_unescape-append (c ∷ p) s h e =
    path_unescape-plain c (p ++ s) (ground (arith, h))
      (path_unescape-append p s (ground (arith, h)) e)

path_unescape-hex :
    (c : ℕ) (s : Bytes) {t : Bytes}
    → c < 256
    → path_unescape s ≡ some t
    → path_unescape (b'%' ∷ upper_hex (c / 16) ∷ upper_hex (c % 16) ∷ s) ≡ some (c ∷ t)
unfolding path_unescape prepend_hex
path_unescape-hex c s h e =
    let value : c / 16 * 16 + c % 16 ≡ c = omega arith in
    rw
      (
        hex_value-upper_hex (c / 16) (omega (arith, h)),
        hex_value-upper_hex (c % 16) (omega arith),
        e,
        value,
      )
      refl

plain_byte_ne : (c : ℕ) → is_plain_byte c ≡ true → ((c == b'%') ≡ false) × ((c == b'?') ≡ false)
unfolding is_plain_byte any_byte
plain_byte_ne c h = ground arith

path_unescape-path_escape :
    (p s : Bytes) {t : Bytes}
    → AreBytes p
    → path_unescape s ≡ some t
    → path_unescape (path_escape p ++ s) ≡ some (p ++ t)
unfolding path_escape escape_byte
path_unescape-path_escape [] s h e = e
path_unescape-path_escape (c ∷ p) s h e = elim (Bool-cases (is_plain_byte c)) [
  | inl q ↦ rw q (
      path_unescape-plain c (path_escape p ++ s) (plain_byte_ne c q).0
        (path_unescape-path_escape p s h.1 e))
  | inr q ↦
      rw q (path_unescape-hex c (path_escape p ++ s) h.0 (path_unescape-path_escape p s h.1 e))
]

path_unescape-nil : path_unescape [] ≡ some []
unfolding path_unescape
path_unescape-nil = refl

pub path_unescape-join :
    (parts : List Bytes)
    → All AreBytes parts
    → path_unescape (join b'/' (map path_escape parts)) ≡ some (join b'/' parts)
unfolding join
path_unescape-join [] h = unfold path_unescape in refl
path_unescape-join (p ∷ []) h =
    let whole = path_unescape-path_escape p [] h.0 path_unescape-nil in
    cc (whole, append-nil (path_escape p), append-nil p)
path_unescape-join (p ∷ q ∷ r) h =
    path_unescape-path_escape p (b'/' ∷ join b'/' (map path_escape (q ∷ r))) h.0 (
      path_unescape-plain b'/' (join b'/' (map path_escape (q ∷ r))) refl
        (path_unescape-join (q ∷ r) h.1))

upper_hex_ne : (n : ℕ) → (upper_hex n == b'?') ≡ false
upper_hex_ne n = ground arith

Lacks-path_escape : (p : Bytes) → Lacks b'?' (path_escape p)
unfolding path_escape escape_byte any_byte
Lacks-path_escape [] = refl
Lacks-path_escape (c ∷ p) = elim (Bool-cases (is_plain_byte c)) [
  | inl q ↦ rw (q, (plain_byte_ne c q).1) (Lacks-path_escape p)
  | inr q ↦ rw (q, upper_hex_ne (c / 16), upper_hex_ne (c % 16)) (Lacks-path_escape p)
]

pub Lacks-join : (parts : List Bytes) → Lacks b'?' (join b'/' (map path_escape parts))
unfolding join any_byte
Lacks-join [] = refl
Lacks-join (p ∷ []) = Lacks-path_escape p
Lacks-join (p ∷ q ∷ r) =
    rw
      (
        any_byte-append (λ b. b == b'?') (path_escape p)
            (b'/' ∷ join b'/' (map path_escape (q ∷ r))),
        Lacks-path_escape p,
      )
      (Lacks-join (q ∷ r))

AreBytes-push_front :
    (c : ℕ) (ps : List Bytes) → c < 256 → All AreBytes ps → All AreBytes (push_front c ps)
AreBytes-push_front c [] h a = ((h, tt), tt)
AreBytes-push_front c (p ∷ ps) h a = ((h, a.0), a.1)

pub AreBytes-split : (sep : ℕ) (s : Bytes) → AreBytes s → All AreBytes (split sep s)
unfolding split
AreBytes-split sep [] h = (tt, tt)
AreBytes-split sep (c ∷ s) h = elim (Bool-cases (c == sep)) [
  | inl q ↦ rw q (tt, AreBytes-split sep s h.1)
  | inr q ↦ rw q (AreBytes-push_front c (split sep s) h.0 (AreBytes-split sep s h.1))
]
