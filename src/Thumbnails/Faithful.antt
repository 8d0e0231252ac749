-- ===== src/Thumbnails/Faithful.antt =====
-- The cache of thumbnails and the files that they show, go_api/cmd/api/thumbnail.go.
use imageboard.Base.{
  ℕ, ◌≡◌, subst, ap, ◌∙◌, sym, List, Bool, ◌||◌, not, Option, none, some, ◌==◌, length, arith,
  Bool-cases, Option-cases, inl, inr,
}
use imageboard.Text.{Bytes, bytes_eq_iff}
use imageboard.Thumbnails.{
  Crypto, Secrets, Cached, Loaded, loaded, thumbnail_key, is_row, thumbnail_additional_data,
  decrypt_thumbnail, find_row, store_row, delete_row, load_found,
}
use imageboard.Thumbnails.Serve.{new_row}
use imageboard.Thumbnails.Rows.{Opens, decrypt-encrypt, find_row-store_row, find_row-delete_row}

-- What the generator makes of a file of this path for a variant, by the file's size and time.
abbrev pub Made : Type 0
Made = Bytes → ℕ → ℕ → ℕ → Option Bytes

-- Keys of different paths differ, and what is sealed can be opened.
pub record IsSafe (c : Crypto) (s : Secrets) : Type 0 where
  pub opens : Opens c
  pub distinct : (p q : Bytes) → thumbnail_key c s p ≡ thumbnail_key c s q → p ≡ q

-- A row that opens holds what was made of the file of its size and time.
abbrev pub IsFaithful : Crypto → Secrets → Made → List Cached → Type 0
IsFaithful c s made rows =
    (path : Bytes) (variant : ℕ) (r : Cached) (t : Bytes)
    → find_row (thumbnail_key c s path) variant rows ≡ some r
    → decrypt_thumbnail c s (thumbnail_additional_data (thumbnail_key c s path) variant) r.nonce
        r.ciphertext
      ≡ some t
    → made path variant r.size r.modified ≡ some t

module _ (c : Crypto) (s : Secrets) (made : Made) (safe : IsSafe c s) where
  delete_row-IsFaithful :
      (key : Bytes) (variant : ℕ) (rows : List Cached)
      → IsFaithful c s made rows
      → IsFaithful c s made (delete_row key variant rows)
  delete_row-IsFaithful key variant rows f path v r t e d =
      f path v r t
        (ground (arith, e, find_row-delete_row (thumbnail_key c s path) key v variant rows)) d

  abbrev Shows : Bytes → Bytes → ℕ → Cached → Type 0
  Shows t path variant r =
      decrypt_thumbnail c s (thumbnail_additional_data (thumbnail_key c s path) variant) r.nonce
          r.ciphertext
        ≡ some t
      → made path variant r.size r.modified ≡ some t

  -- A new row for a thumbnail that was made of the file.
  pub store_row-IsFaithful :
      (path : Bytes) (variant size modified : ℕ) (nonce plaintext : Bytes) (rows : List Cached)
      → IsFaithful c s made rows
      → length nonce ≡ c.nonce_size
      → made path variant size modified ≡ some plaintext
      → let key = thumbnail_key c s path in
        IsFaithful c s made (
          store_row
            (new_row key variant size modified (
              nonce,
              c.seal s.encryption_key nonce plaintext (thumbnail_additional_data key variant),
            ))
            rows)
  store_row-IsFaithful path variant size modified nonce plaintext rows f n m path' v r t e d =
      let key = thumbnail_key c s path in
      let additional = thumbnail_additional_data key variant in
      let new : Cached =
        new_row key variant size modified
          (nonce, c.seal s.encryption_key nonce plaintext additional) in
      let there = find_row-store_row (thumbnail_key c s path') v new rows in
      elim (Bool-cases (is_row (thumbnail_key c s path') v new)) [
        | inr q ↦ f path' v r t (ground (arith, e, q, there)) d
        | inl q ↦
            let same_path : path ≡ path' =
              safe.distinct path path'
                ((bytes_eq_iff key (thumbnail_key c s path')).0 (ground (arith, q))) in
            let same_variant : variant ≡ v = ground (arith, q) in
            let same_row : new ≡ r = ground (arith, e, q, there) in
            let of_new : Shows t path variant new =
              λ d. m ∙ sym (decrypt-encrypt c s additional plaintext nonce safe.opens n) ∙ d in
            subst (λ x. Shows t x v r) same_path
              (subst (λ x. Shows t path x r) same_variant
                (subst (Shows t path variant) same_row of_new))
              d
      ]

  -- What is loaded was made of the file.
  abbrev pub LoadsMade : Bytes → ℕ → ℕ → ℕ → Loaded → Type 0
  LoadsMade path variant size modified (loaded t) = made path variant size modified ≡ some t
  LoadsMade path variant size modified _ = Unit

  pub load_found-IsFaithful :
      (delete_fails : Bool) (path : Bytes) (variant size modified : ℕ) (found : Option Cached)
      (rows : List Cached)
      → find_row (thumbnail_key c s path) variant rows ≡ found
      → IsFaithful c s made rows
      → let (l, rows') =
          load_found c s delete_fails (thumbnail_key c s path) variant size modified found rows in
        LoadsMade path variant size modified l × IsFaithful c s made rows'
  load_found-IsFaithful delete_fails path variant size modified none rows e f = (tt, f)
  load_found-IsFaithful delete_fails path variant size modified (some r) rows e f =
      elim (Bool-cases (not (r.size == size) || not (r.modified == modified))) [
        | inl q ↦ rw q (tt, f)
        | inr q ↦
            let key = thumbnail_key c s path in
            rw q
              (elim (Option-cases (
                decrypt_thumbnail c s (thumbnail_additional_data key variant) r.nonce
                  r.ciphertext)) [
                    | inr (t, d) ↦ rw d (
                      ap (λ n. made path variant n modified) (sym (ground (arith, q)))
                          ∙ ap (λ n. made path variant r.size n) (sym (ground (arith, q)))
                          ∙ f path variant r t e d,
                      f,
                    )
                    | inl d ↦ rw d (elim (Bool-cases delete_fails) [
                      | inl x ↦ rw x (tt, f)
                      | inr x ↦ rw x (tt, delete_row-IsFaithful key variant rows f)
                    ])
                  ])
      ]
