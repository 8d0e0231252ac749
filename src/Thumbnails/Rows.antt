-- ===== src/Thumbnails/Rows.antt =====
-- The rows of thumbnail_cache, go_api/cmd/api/thumbnail.go, and a thumbnail put there and got back.
use imageboard.Base.{
  ℕ, ◌≡◌, refl, ap, ◌∙◌, sym, ◌∷◌, [], List, true, ◌&&◌, none, some, ◌==◌, if◌then◌else◌, length,
  arith, Bool-cases, inl, inr,
}
use imageboard.Text.{Bytes, bytes_eq, bytes_eq_iff}
use imageboard.Thumbnails.{
  Crypto, Secrets, Cached, is_row, find_row, delete_row, store_row, decrypt_thumbnail,
}

is_row_eq :
    (key key' : Bytes) (variant variant' : ℕ) (r : Cached)
    → is_row key variant r ≡ true
    → is_row key' variant' r ≡ (bytes_eq key key' && (variant == variant'))
is_row_eq key key' variant variant' r h =
    ap (λ k. bytes_eq k key' && (r.variant == variant'))
      ((bytes_eq_iff r.key key).0 (ground (arith, h)))
    ∙ ap (λ v. bytes_eq key key' && (v == variant')) (ground (arith, h))

bytes_eq_sym : (s t : Bytes) → bytes_eq s t ≡ bytes_eq t s
unfolding bytes_eq
bytes_eq_sym [] [] = refl
bytes_eq_sym [] (d ∷ t) = refl
bytes_eq_sym (c ∷ s) [] = refl
bytes_eq_sym (c ∷ s) (d ∷ t) = ground (arith, bytes_eq_sym s t)

is_row_moved :
    (key : Bytes) (variant : ℕ) (new r : Cached)
    → is_row key variant new ≡ true
    → is_row key variant r ≡ is_row new.key new.variant r
is_row_moved key variant new r h =
    ap (λ k. is_row k variant r) (sym ((bytes_eq_iff new.key key).0 (ground (arith, h))))
    ∙ ap (λ v. is_row new.key v r) (ground (arith, h))

pub find_row-store_row :
    (key : Bytes) (variant : ℕ) (new : Cached) (rows : List Cached)
    → find_row key variant (store_row new rows)
      ≡ (if is_row key variant new then some new else find_row key variant rows)
unfolding find_row store_row
find_row-store_row key variant new [] = refl
find_row-store_row key variant new (r ∷ rows) = elim (Bool-cases (is_row new.key new.variant r)) [
  | inl q ↦ ground (arith, q, is_row_eq new.key key new.variant variant r q)
  | inr q ↦
      rw (q, find_row-store_row key variant new rows)
        (elim (Bool-cases (is_row key variant new)) [
          | inl e ↦ ground (arith, e, q, is_row_moved key variant new r e)
          | inr e ↦ ground (arith, e)
        ])
]

pub find_row-delete_row :
    (key key' : Bytes) (variant variant' : ℕ) (rows : List Cached)
    → find_row key variant (delete_row key' variant' rows)
      ≡ (if bytes_eq key' key && (variant' == variant) then none else find_row key variant rows)
unfolding find_row delete_row
find_row-delete_row key key' variant variant' [] = ground arith
find_row-delete_row key key' variant variant' (x ∷ rows) =
    elim (Bool-cases (is_row key' variant' x)) [
      | inl q ↦ ground (
        arith,
        q,
        is_row_eq key' key variant' variant x q,
        find_row-delete_row key key' variant variant' rows,
      )
      | inr q ↦
          rw (q, find_row-delete_row key key' variant variant' rows)
            (elim (Bool-cases (is_row key variant x)) [
              | inl e ↦
                  ground
                    (arith, e, q, is_row_eq key key' variant variant' x e, bytes_eq_sym key key')
              | inr e ↦ ground (arith, e)
            ])
    ]

-- What AES-GCM promises: what is sealed can be opened with the same key, nonce and additional data.
pub record Opens (c : Crypto) : Type 0 where
  pub opens :
      (key nonce plaintext additional : Bytes)
      → length nonce ≡ c.nonce_size
      → c.open_sealed key nonce (c.seal key nonce plaintext additional) additional ≡ some plaintext

pub decrypt-encrypt :
    (c : Crypto) (s : Secrets) (additional plaintext nonce : Bytes)
    → Opens c
    → length nonce ≡ c.nonce_size
    → decrypt_thumbnail c s additional nonce (c.seal s.encryption_key nonce plaintext additional)
      ≡ some plaintext
unfolding decrypt_thumbnail
decrypt-encrypt c s additional plaintext nonce o n =
    let same : (length nonce == c.nonce_size) ≡ true = ground (arith, n) in
    rw same (o.opens s.encryption_key nonce plaintext additional n)
