-- ===== src/Documents/Cut.antt =====
-- A character that the limit of `readDocument` cuts in two, go_api/cmd/api/handlers.go.
use imageboard.Base.{
  suc, ◌≡◌, refl, ap, ◌∙◌, List, [], ◌∷◌, ◌++◌, true, false, ◌&&◌, Option, some, ltb, length, take,
}
use imageboard.Text.{Bytes, All, valid_utf8, valid_utf8_ascii, valid_utf8_half, valid_utf8_accent}
use imageboard.Paths.{canonical_path}
use imageboard.Paths.Kinds.{supported_document}
use imageboard.Documents.{Document, refused, max_document_bytes, read_document}
use imageboard.Documents.Shown.{shown_bytes, read_document_lem}

abbrev pub IsAscii : Bytes → Type 0
IsAscii = All (λ b. ltb b 0x80 ≡ true)

valid_utf8-append : (p s : Bytes) → IsAscii p → valid_utf8 (p ++ s) ≡ valid_utf8 s
valid_utf8-append [] s h = refl
valid_utf8-append (b ∷ p) s h = valid_utf8_ascii b (p ++ s) h.0 ∙ valid_utf8-append p s h.1

take-length {ℓ} :
    {A : Type ℓ} (p : List A) (x : A) (rest : List A)
    → take (suc (length p)) (p ++ x ∷ rest) ≡ p ++ x ∷ []
take-length [] x rest = refl
take-length (y ∷ p) x rest = ap (λ r. y ∷ r) (take-length p x rest)

shown_cut :
    (path p rest : Bytes)
    → IsAscii p
    → shown_bytes (suc (length p)) path (p ++ 0xC3 ∷ rest) ≡ refused 422
unfolding shown_bytes
shown_cut path p rest a =
    rw (take-length p 0xC3 rest, valid_utf8-append p (0xC3 ∷ []) a, valid_utf8_half) refl

-- A document of 1048575 bytes of ASCII, then é, then any valid UTF-8: it is valid UTF-8 as a whole,
-- and it is refused with 422 as if it were not.
pub read_document_cut :
    (lower : Bytes → Bytes) (existing : Bytes → Option Document) (requested path p rest : Bytes)
    (d : Document)
    → ltb 4096 (length requested) ≡ false
    → canonical_path requested false ≡ some path
    → existing path ≡ some d
    → (d.regular && supported_document lower d.name && d.opens) ≡ true
    → d.content ≡ some (p ++ 0xC3 ∷ 0xA9 ∷ rest)
    → IsAscii p
    → max_document_bytes ≡ suc (length p)
    → valid_utf8 rest ≡ true
    → (valid_utf8 (p ++ 0xC3 ∷ 0xA9 ∷ rest) ≡ true)
      × (read_document lower existing requested ≡ refused 422)
read_document_cut lower existing requested path p rest d short c e ok content a n v = (
  valid_utf8-append p (0xC3 ∷ 0xA9 ∷ rest) a ∙ valid_utf8_accent rest ∙ v,
  read_document_lem lower existing requested path (p ++ 0xC3 ∷ 0xA9 ∷ rest) d short c e ok content
      ∙ ap (λ limit. shown_bytes limit path (p ++ 0xC3 ∷ 0xA9 ∷ rest)) n
      ∙ shown_cut path p (0xA9 ∷ rest) a,
)
