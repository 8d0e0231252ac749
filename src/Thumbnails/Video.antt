-- ===== src/Thumbnails/Video.antt =====
-- The thumbnails that the index worker puts into the cache for the API:
-- index_worker/cmd/index-worker/thumbnails.go `ensureVideoThumbnail`, go_api/cmd/api/thumbnail.go.
use imageboard.Base.{
  ℕ, ◌≡◌, refl, ap, ◌∙◌, sym, List, Bool, true, false, ◌&&◌, ◌||◌, not, some, ◌==◌, if◌then◌else◌,
  length, arith,
}
use imageboard.Text.{Bytes, bytes_eq_refl}
use imageboard.Paths.Kinds.{supported_media}
use imageboard.Thumbnails.{
  Crypto, Secrets, Cached, loaded, parse_thumbnail_path, thumbnail_key, thumbnail_additional_data,
  encrypt_thumbnail, find_row, store_row, load_thumbnail, load_found, small_width,
}
use imageboard.Thumbnails.Serve.{
  Source, Host, image, microseconds, new_row, answer, serve_source, serve_indexed, serve_existing,
  serve_parsed, thumbnail, Video, is_up_to_date, store_sheet, ensure_video_thumbnail,
}
use imageboard.Thumbnails.Rows.{Opens, decrypt-encrypt, find_row-store_row}

eq_refl : (n : ℕ) → (n == n) ≡ true
eq_refl n = ground arith

-- The row that the worker leaves for a video that is not up to date.
module _ (c : Crypto) (s : Secrets) (v : Video) (sheet nonce : Bytes) where
  abbrev video_key : Bytes
  video_key = thumbnail_key c s v.path

  abbrev video_row : Cached
  video_row =
      new_row video_key small_width v.size v.modified (
        nonce,
        c.seal s.encryption_key nonce sheet (thumbnail_additional_data video_key small_width),
      )

  stored :
      (rows : List Cached)
      → v.sheet ≡ some sheet
      → is_up_to_date v (find_row video_key small_width rows) ≡ false
      → ensure_video_thumbnail c s (some nonce) false false v rows ≡ store_row video_row rows
  unfolding ensure_video_thumbnail encrypt_thumbnail
  stored rows e old = rw old (ap (λ o. store_sheet c s (some nonce) false v o rows) e)

  find_stored :
      (rows : List Cached)
      → find_row video_key small_width (store_row video_row rows) ≡ some video_row
  find_stored rows =
      find_row-store_row video_key small_width video_row rows ∙ rw (bytes_eq_refl video_key) refl

  load_stored :
      (delete_fails : Bool) (rows : List Cached)
      → Opens c
      → length nonce ≡ c.nonce_size
      → load_thumbnail c s false delete_fails video_key small_width v.size v.modified
          (store_row video_row rows)
        ≡ (loaded sheet, store_row video_row rows)
  unfolding load_thumbnail
  load_stored delete_fails rows opens n =
      ap
        (λ found.
          load_found c s delete_fails video_key small_width v.size v.modified found
            (store_row video_row rows))
        (find_stored rows)
      ∙ rw
          (
            eq_refl v.size,
            eq_refl v.modified,
            decrypt-encrypt c s (thumbnail_additional_data video_key small_width) sheet nonce opens
                n,
          )
          refl

  module _ (h : Host) (source : Source) (rows : List Cached) (opens : Opens c)
      (n : length nonce ≡ c.nonce_size) (query : h.query_fails ≡ false)
      (size : source.size ≡ v.size) (modified : microseconds source.modified ≡ v.modified) where
    load_works :
        load_thumbnail c s h.query_fails h.delete_fails video_key small_width source.size
          (microseconds source.modified)
          (store_row video_row rows)
        ≡ (loaded sheet, store_row video_row rows)
    load_works =
        ap
          (λ q.
            load_thumbnail c s q h.delete_fails video_key small_width source.size
              (microseconds source.modified) (store_row video_row rows))
          query
        ∙ ap
            (λ k.
              load_thumbnail c s false h.delete_fails video_key small_width k
                (microseconds source.modified) (store_row video_row rows))
            size
        ∙ ap
            (λ k.
              load_thumbnail c s false h.delete_fails video_key small_width v.size k
                (store_row video_row rows))
            modified
        ∙ load_stored h.delete_fails rows opens n

    serve_source_works :
        serve_source c s h v.path small_width source (store_row video_row rows)
        ≡ (image sheet, store_row video_row rows)
    unfolding serve_source
    serve_source_works = ap (answer c s h v.path small_width source) load_works

-- A video of which the worker has made a sheet, where nothing fails and the row that there was is
-- not up to date: while the file keeps its size and time, the API gives that sheet to every user who
-- may see it, without a change to the cache. What is sealed can be opened.
pub thumbnail-ensure_video_thumbnail :
    (c : Crypto) (s : Secrets) (h : Host) (v : Video) (sheet nonce : Bytes) (source : Source)
    (admin : Bool) (request : Bytes) (rows : List Cached)
    → Opens c
    → length nonce ≡ c.nonce_size
    → v.sheet ≡ some sheet
    → is_up_to_date v (find_row (thumbnail_key c s v.path) small_width rows) ≡ false
    → parse_thumbnail_path request ≡ some (v.path, small_width)
    → h.existing v.path ≡ some source
    → (source.regular && supported_media h.lower v.path) ≡ true
    → source.size ≡ v.size
    → microseconds source.modified ≡ v.modified
    → (if admin then some true else h.indexed v.path) ≡ some true
    → h.query_fails ≡ false
    → let after = ensure_video_thumbnail c s (some nonce) false false v rows in
      thumbnail c s h admin request after ≡ (image sheet, after)
unfolding thumbnail
thumbnail-ensure_video_thumbnail c s h v sheet nonce source admin request rows opens n made old
      parsed exists media size modified seen query =
    let after = ensure_video_thumbnail c s (some nonce) false false v rows in
    let row : after ≡ store_row (video_row c s v sheet nonce) rows =
      stored c s v sheet nonce rows made old in
    let supported : (not source.regular || not (supported_media h.lower v.path)) ≡ false =
      ground (arith, media) in
    ap (λ o. serve_parsed c s h admin o after) parsed
    ∙ ap (λ o. serve_existing c s h admin v.path small_width o after) exists
    ∙ rw supported (
        ap (λ o. serve_indexed c s h v.path small_width source o after) seen
        ∙ ap (serve_source c s h v.path small_width source) row
        ∙ serve_source_works c s v sheet nonce h source rows opens n query size modified
        ∙ ap (λ r. (image sheet, r)) (sym row))
