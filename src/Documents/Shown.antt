-- ===== src/Documents/Shown.antt =====
-- What `readDocument` shows of a document, go_api/cmd/api/handlers.go.
use imageboard.Base.{
  ℕ, suc, ◌≤◌, zero, ◌≡◌, refl, ap, ◌∙◌, sym, Bool, true, false, ◌||◌, ◌&&◌, not, Option, some, ltb,
  if◌then◌else◌, length, take, length-take, List, [], ◌∷◌, arith, Bool-cases, inl, inr,
}
use imageboard.Text.{Bytes, valid_utf8}
use imageboard.Paths.{canonical_path}
use imageboard.Paths.Kinds.{supported_document}
use imageboard.Documents.{
  Document, Reply, refused, shown, max_document_bytes, show_read, show_content, show_document,
  read_document,
}

take-take {ℓ} : {A : Type ℓ} (n : ℕ) (xs : List A) → take n (take (suc n) xs) ≡ take n xs
take-take zero xs = refl
take-take (suc n) [] = refl
take-take (suc n) (x ∷ xs) = ap (λ r. x ∷ r) (take-take n xs)

take_all {ℓ} : {A : Type ℓ} (n : ℕ) (xs : List A) → length xs ≤ n → take n xs ≡ xs
take_all zero [] h = refl
take_all zero (x ∷ xs) h = absurd (omega (arith, h))
take_all (suc n) [] h = refl
take_all (suc n) (x ∷ xs) h = ap (λ r. x ∷ r) (take_all n xs (omega (arith, h)))

-- The reply for a file of these bytes, as far as the limit.
unfoldable pub shown_bytes : ℕ → Bytes → Bytes → Reply
shown_bytes limit path bytes =
    if valid_utf8 (take limit bytes)
    then shown path (take limit bytes) (ltb limit (length bytes))
    else refused 422

regular_supported : (r s o : Bool) → (r && s && o) ≡ true → (not r || not s) ≡ false
regular_supported r s o h = ground (arith, h)

opens : (r s o : Bool) → (r && s && o) ≡ true → not o ≡ false
opens r s o h = ground (arith, h)

-- Both branches of the cut, in one equation.
cut :
    (limit : ℕ) (bytes : Bytes)
    → let read = take (suc limit) bytes in
      ((if ltb limit (length read) then take limit read else read) ≡ take limit bytes)
      × (ltb limit (length read) ≡ ltb limit (length bytes))
cut limit bytes =
    let read = take (suc limit) bytes in
    elim (Bool-cases (ltb limit (length read))) [
      | inl q ↦ rw q (take-take limit bytes, ground (arith, q, length-take (suc limit) bytes))
      | inr q ↦ rw q (
        sym (take_all limit read (ground (arith, q))) ∙ take-take limit bytes,
        ground (arith, q, length-take (suc limit) bytes),
      )
    ]

show_read_lem :
    (limit : ℕ) (path bytes : Bytes)
    → show_read limit path (take (suc limit) bytes) ≡ shown_bytes limit path bytes
unfolding shown_bytes
show_read_lem limit path bytes =
    let (content, truncated) = cut limit bytes in
    rw (content, truncated)
      (elim (Bool-cases (valid_utf8 (take limit bytes))) [ inl q ↦ rw q refl | inr q ↦ rw q refl ])

-- A document that is found, supported, readable and asked for by at most 4096 bytes: its first
-- 1048576 bytes are shown if they are valid UTF-8, as truncated exactly if there are more, and
-- refused with 422 otherwise.
pub read_document_lem :
    (lower : Bytes → Bytes) (existing : Bytes → Option Document) (requested path bytes : Bytes)
    (d : Document)
    → ltb 4096 (length requested) ≡ false
    → canonical_path requested false ≡ some path
    → existing path ≡ some d
    → (d.regular && supported_document lower d.name && d.opens) ≡ true
    → d.content ≡ some bytes
    → read_document lower existing requested ≡ shown_bytes max_document_bytes path bytes
unfolding read_document
read_document_lem lower existing requested path bytes d short c e ok content =
    rw (short, c)
      (ap (show_document lower path) e
        ∙ rw
            (
              regular_supported d.regular (supported_document lower d.name) d.opens ok,
              opens d.regular (supported_document lower d.name) d.opens ok,
            )
            (ap (show_content max_document_bytes path) content
              ∙ show_read_lem max_document_bytes path bytes))
