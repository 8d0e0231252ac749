-- ===== src/Thumbnails/Current.antt =====
-- What the handler of thumbnails gives out, go_api/cmd/api/thumbnail.go.
use imageboard.Base.{
  ℕ, ◌≡◌, refl, ap, ◌∙◌, sym, List, Bool, true, false, ◌||◌, not, Option, none, some, length,
  String, arith, Bool-cases, inl, inr,
}
use imageboard.Text.{Bytes}
use imageboard.Paths.Kinds.{supported_media, is_video}
use imageboard.Thumbnails.{
  Crypto, Secrets, Cached, Loaded, unavailable, absent, loaded, parse_thumbnail_path, thumbnail_key,
  thumbnail_additional_data, encrypt_thumbnail, find_row, load_thumbnail,
}
use imageboard.Thumbnails.Serve.{
  Source, Host, Reply, refused, image, microseconds, store_sealed, store_generated, answer,
  serve_source, serve_indexed, serve_existing, serve_parsed, thumbnail,
}
use imageboard.Thumbnails.Faithful.{
  Made, IsSafe, IsFaithful, LoadsMade, load_found-IsFaithful, store_row-IsFaithful,
}

-- The generator makes of each file what is made of its size and time, and nonces have their size.
pub record Tells (c : Crypto) (made : Made) (h : Host) : Type 0 where
  pub generates :
      (path : Bytes) (variant : ℕ) (source : Source)
      → h.existing path ≡ some source
      → h.generate path variant ≡ made path variant source.size (microseconds source.modified)
  pub nonces : (nonce : Bytes) → h.nonce ≡ some nonce → length nonce ≡ c.nonce_size

module _ (c : Crypto) (s : Secrets) (made : Made) (safe : IsSafe c s) (h : Host)
    (tells : Tells c made h) where
  -- An image that is given out was made of the file as it is.
  abbrev OfFile : Bytes → ℕ → Source → Reply × List Cached → Type 0
  OfFile path variant source (image t, rows) =
      (made path variant source.size (microseconds source.modified) ≡ some t)
      × IsFaithful c s made rows
  OfFile path variant source (refused status text, rows) = IsFaithful c s made rows

  module _ (path : Bytes) (variant : ℕ) (source : Source) where
    store_sealed-OfFile :
        (t : Bytes) (nonce : Option Bytes) (rows : List Cached)
        → made path variant source.size (microseconds source.modified) ≡ some t
        → h.nonce ≡ nonce
        → IsFaithful c s made rows
        → OfFile path variant source (
            store_sealed h
              (thumbnail_key c s path)
              variant
              source
              t
              (encrypt_thumbnail c s
                (thumbnail_additional_data (thumbnail_key c s path) variant)
                t
                nonce)
              rows)
    unfolding encrypt_thumbnail
    store_sealed-OfFile t none rows m e f = f
    store_sealed-OfFile t (some nonce) rows m e f = elim (Bool-cases h.store_fails) [
      | inl q ↦ rw q f
      | inr q ↦ rw q (
        m,
        store_row-IsFaithful c s made safe path variant source.size (microseconds source.modified)
            nonce t rows f (tells.nonces nonce e) m,
      )
    ]

    store_generated-OfFile :
        (generated : Option Bytes) (rows : List Cached)
        → made path variant source.size (microseconds source.modified) ≡ generated
        → IsFaithful c s made rows
        → OfFile path variant source
            (store_generated c s h (thumbnail_key c s path) variant source generated rows)
    store_generated-OfFile none rows m f = f
    store_generated-OfFile (some t) rows m f = store_sealed-OfFile t h.nonce rows m refl f

    answer-OfFile :
        (l : Loaded) (rows : List Cached)
        → h.existing path ≡ some source
        → LoadsMade c s made safe path variant source.size (microseconds source.modified) l
        → IsFaithful c s made rows
        → OfFile path variant source (answer c s h path variant source (l, rows))
    answer-OfFile unavailable rows e m f = f
    answer-OfFile (loaded t) rows e m f = (m, f)
    answer-OfFile absent rows e m f = elim (Bool-cases (is_video h.lower path)) [
      | inl q ↦ rw q f
      | inr q ↦ rw q (
          store_generated-OfFile (h.generate path variant) rows
            (sym (tells.generates path variant source e)) f)
    ]

    serve_source-OfFile :
        (rows : List Cached)
        → h.existing path ≡ some source
        → IsFaithful c s made rows
        → OfFile path variant source (serve_source c s h path variant source rows)
    unfolding serve_source load_thumbnail
    serve_source-OfFile rows e f = elim (Bool-cases h.query_fails) [
      | inl q ↦ rw (q, load_thumbnail) f
      | inr q ↦
          rw (q, load_thumbnail)
            (let (m, f') =
                load_found-IsFaithful c s made safe h.delete_fails path variant source.size
                  (microseconds source.modified) (find_row (thumbnail_key c s path) variant rows)
                  rows refl f in
              answer-OfFile _ _ e m f')
    ]

  -- The reply to a request shows the file that it names, and the cache stays faithful.
  abbrev Shows : Bytes → Reply × List Cached → Type 0
  Shows request (reply, rows) =
      ((t : Bytes)
        → reply ≡ image t
        → (path : Bytes) × (variant : ℕ) × (source : Source) × (parse_thumbnail_path request
            ≡ some (path, variant))
          × (h.existing path ≡ some source)
          × (made path variant source.size (microseconds source.modified) ≡ some t))
      × IsFaithful c s made rows

  refused-Shows :
      (request : Bytes) (status : ℕ) (text : String) (rows : List Cached)
      → IsFaithful c s made rows
      → Shows request (refused status text, rows)
  refused-Shows request status text rows f = (λ t e. absurd (ground (arith, e)), f)

  OfFile-Shows :
      (request path : Bytes) (variant : ℕ) (source : Source) (result : Reply × List Cached)
      → parse_thumbnail_path request ≡ some (path, variant)
      → h.existing path ≡ some source
      → OfFile path variant source result
      → Shows request result
  OfFile-Shows request path variant source (refused status text, rows) p x f =
      refused-Shows request status text rows f
  OfFile-Shows request path variant source (image t', rows) p x (m, f) =
      (λ t e. (path, variant, source, p, x, m ∙ ap some (ground (arith, e))), f)

  serve_indexed-Shows :
      (request path : Bytes) (variant : ℕ) (source : Source) (is_indexed : Option Bool)
      (rows : List Cached)
      → parse_thumbnail_path request ≡ some (path, variant)
      → h.existing path ≡ some source
      → IsFaithful c s made rows
      → Shows request (serve_indexed c s h path variant source is_indexed rows)
  serve_indexed-Shows request path variant source none rows p x f =
      refused-Shows request 500 "Database unavailable" rows f
  serve_indexed-Shows request path variant source (some false) rows p x f =
      refused-Shows request 403 "Media is not indexed" rows f
  serve_indexed-Shows request path variant source (some true) rows p x f =
      OfFile-Shows request path variant source (serve_source c s h path variant source rows) p x
        (serve_source-OfFile path variant source rows x f)

  serve_existing-Shows :
      (admin : Bool) (request path : Bytes) (variant : ℕ) (source : Option Source)
      (rows : List Cached)
      → parse_thumbnail_path request ≡ some (path, variant)
      → h.existing path ≡ source
      → IsFaithful c s made rows
      → Shows request (serve_existing c s h admin path variant source rows)
  serve_existing-Shows admin request path variant none rows p x f =
      refused-Shows request 404 "Thumbnail not found" rows f
  serve_existing-Shows admin request path variant (some source) rows p x f =
      elim (Bool-cases (not source.regular || not (supported_media h.lower path))) [
        | inl q ↦ rw q (refused-Shows request 404 "Thumbnail not found" rows f)
        | inr q ↦ rw q (serve_indexed-Shows request path variant source _ rows p x f)
      ]

  serve_parsed-Shows :
      (admin : Bool) (request : Bytes) (parsed : Option (Bytes × ℕ)) (rows : List Cached)
      → parse_thumbnail_path request ≡ parsed
      → IsFaithful c s made rows
      → Shows request (serve_parsed c s h admin parsed rows)
  serve_parsed-Shows admin request none rows p f =
      refused-Shows request 404 "Thumbnail not found" rows f
  serve_parsed-Shows admin request (some (path, variant)) rows p f =
      serve_existing-Shows admin request path variant (h.existing path) rows p refl f

-- Where keys do not collide, what is sealed can be opened, the generator makes of a file what its
-- path, size and time determine, and the cache is faithful: an image that is given out is what the
-- generator makes of the file that the request names, as the file is now, and the cache is faithful
-- afterwards, whatever fails.
pub thumbnail_current :
    (c : Crypto) (s : Secrets) (made : Made) (h : Host) (admin : Bool) (request : Bytes)
    (rows : List Cached)
    → IsSafe c s
    → Tells c made h
    → IsFaithful c s made rows
    → let (reply, rows') = thumbnail c s h admin request rows in
      ((t : Bytes)
        → reply ≡ image t
        → (path : Bytes) × (variant : ℕ) × (source : Source) × (parse_thumbnail_path request
            ≡ some (path, variant))
          × (h.existing path ≡ some source)
          × (made path variant source.size (microseconds source.modified) ≡ some t))
      × IsFaithful c s made rows'
unfolding thumbnail
thumbnail_current c s made h admin request rows safe tells f =
    serve_parsed-Shows c s made safe h tells admin request (parse_thumbnail_path request) rows refl
      f
