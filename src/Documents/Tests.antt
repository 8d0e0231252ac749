-- ===== src/Documents/Tests.antt =====
-- Documents: a short one, and one that the limit cuts in the middle of a letter.
use imageboard.Base.{
  ℕ, suc, ◌≡◌, refl, ap, sym, [], ◌∷◌, ◌++◌, true, false, some, length, replicate, length-replicate,
  zero,
}
use imageboard.Text.{Bytes, codes, valid_utf8, split, join, bytes_eq, any_byte, runes}
use imageboard.Password.{contains_control}
use imageboard.Paths.{canonical_path}
use imageboard.Paths.Kinds.{supported_document}
use imageboard.Documents.{Document, refused, max_document_bytes, read_document}
use imageboard.Documents.Shown.{shown_bytes, read_document_lem}
use imageboard.Documents.Cut.{IsAscii, read_document_cut}

abbrev lower : Bytes → Bytes
lower s = s

abbrev document : Bytes → Document
document bytes = record { name = codes "a.txt"; regular = true; opens = true; content = some bytes }

a_canonical : canonical_path (codes "a.txt") false ≡ some (codes "a.txt")
unfolding canonical_path split bytes_eq any_byte contains_control runes join
a_canonical = refl

a_supported : supported_document lower (codes "a.txt") ≡ true
unfolding supported_document bytes_eq any_byte
a_supported = refl

read_document_lem_example :
    read_document lower (λ path. some (document (codes "hello"))) (codes "a.txt")
    ≡ shown_bytes max_document_bytes (codes "a.txt") (codes "hello")
read_document_lem_example =
    read_document_lem lower (λ path. some (document (codes "hello"))) (codes "a.txt")
      (codes "a.txt") (codes "hello") (document (codes "hello")) refl a_canonical refl
      (rw a_supported refl) refl

-- As many letters.
unfoldable letters : ℕ → Bytes
letters n = replicate n b'a'

letters-IsAscii : (n : ℕ) → IsAscii (letters n)
unfolding letters
letters-IsAscii zero = tt
letters-IsAscii (suc n) = (refl, letters-IsAscii n)

length-letters : (n : ℕ) → length (letters n) ≡ n
unfolding letters
length-letters n = length-replicate n b'a'

valid_nil : valid_utf8 [] ≡ true
unfolding valid_utf8
valid_nil = refl

abbrev long_text : Bytes
long_text = letters 1048575 ++ 0xC3 ∷ 0xA9 ∷ []

read_document_cut_example :
    (valid_utf8 long_text ≡ true)
    × (read_document lower (λ path. some (document long_text)) (codes "a.txt") ≡ refused 422)
read_document_cut_example =
    read_document_cut lower (λ path. some (document long_text)) (codes "a.txt") (codes "a.txt")
      (letters 1048575) [] (document long_text) refl a_canonical refl (rw a_supported refl) refl
      (letters-IsAscii 1048575) (ap suc (sym (length-letters 1048575))) valid_nil
