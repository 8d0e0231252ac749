-- ===== src/Thumbnails/Serve.antt =====
-- The handler `thumbnail`, go_api/cmd/api/thumbnail.go, and `ensureVideoThumbnail` of
-- index_worker/cmd/index-worker/thumbnails.go.
use imageboard.Base.{
  ℕ, ◌/◌, List, Bool, true, false, ◌&&◌, ◌||◌, not, Option, none, some, ◌==◌, if◌then◌else◌, String,
}
use imageboard.Text.{Bytes}
use imageboard.Paths.Kinds.{supported_media, is_video}
use imageboard.Thumbnails.{
  Crypto, Secrets, Cached, Loaded, unavailable, absent, loaded, parse_thumbnail_path, thumbnail_key,
  thumbnail_additional_data, encrypt_thumbnail, find_row, store_row, load_thumbnail, small_width,
}

-- What `existingPath` finds: the size, the time in nanoseconds, and whether it is a regular file.
pub record Source : Type 0 where
  pub size : ℕ
  pub modified : ℕ
  pub regular : Bool

-- The rest of the world: the files, the index of images (`none` if the query fails), what
-- `generateThumbnail` makes of a file now, the random nonce, and which statements fail.
pub record Host : Type 0 where
  pub existing : Bytes → Option Source
  pub indexed : Bytes → Option Bool
  pub generate : Bytes → ℕ → Option Bytes
  pub nonce : Option Bytes
  pub query_fails : Bool
  pub delete_fails : Bool
  pub store_fails : Bool
  pub lower : Bytes → Bytes

pub data Reply : Type 0 where
  refused : ℕ → String → Reply
  image : Bytes → Reply

-- `Truncate(time.Microsecond)`
abbrev pub microseconds : ℕ → ℕ
microseconds modified = modified / 1000

-- The row of a new thumbnail.
abbrev pub new_row : Bytes → ℕ → ℕ → ℕ → Bytes × Bytes → Cached
new_row key variant size modified (nonce, ciphertext) = record {
  key = key;
  variant = variant;
  size = size;
  modified = modified;
  nonce = nonce;
  ciphertext = ciphertext;
}

abbrev pub store_sealed :
    Host → Bytes → ℕ → Source → Bytes → Option (Bytes × Bytes) → List Cached → Reply × List Cached
store_sealed h key variant source thumbnail none rows =
    (refused 500 "Thumbnail cache unavailable", rows)
store_sealed h key variant source thumbnail (some sealed) rows =
    if h.store_fails then (refused 500 "Thumbnail cache unavailable", rows) else (
      image thumbnail,
      store_row (new_row key variant source.size (microseconds source.modified) sealed) rows,
    )

abbrev pub store_generated :
    Crypto → Secrets → Host → Bytes → ℕ → Source → Option Bytes → List Cached → Reply × List Cached
store_generated c s h key variant source none rows = (refused 415 "Thumbnail unavailable", rows)
store_generated c s h key variant source (some thumbnail) rows =
    store_sealed h key variant source thumbnail
      (encrypt_thumbnail c s (thumbnail_additional_data key variant) thumbnail h.nonce) rows

abbrev pub answer :
    Crypto → Secrets → Host → Bytes → ℕ → Source → Loaded × List Cached → Reply × List Cached
answer c s h path variant source (unavailable, rows) =
    (refused 500 "Thumbnail cache unavailable", rows)
answer c s h path variant source (loaded thumbnail, rows) = (image thumbnail, rows)
answer c s h path variant source (absent, rows) =
    if is_video h.lower path
    then (refused 404 "Thumbnail is being generated", rows)
    else store_generated c s h (thumbnail_key c s path) variant source (h.generate path variant)
        rows

-- The part of the handler behind the test of the user.
unfoldable pub serve_source :
    Crypto → Secrets → Host → Bytes → ℕ → Source → List Cached → Reply × List Cached
unfolding encrypt_thumbnail store_row load_thumbnail
serve_source c s h path variant source rows = answer c s h path variant source (
    load_thumbnail c s h.query_fails h.delete_fails (thumbnail_key c s path) variant source.size
      (microseconds source.modified) rows)

abbrev pub serve_indexed :
    Crypto → Secrets → Host → Bytes → ℕ → Source → Option Bool → List Cached → Reply × List Cached
serve_indexed c s h path variant source none rows = (refused 500 "Database unavailable", rows)
serve_indexed c s h path variant source (some false) rows =
    (refused 403 "Media is not indexed", rows)
serve_indexed c s h path variant source (some true) rows =
    serve_source c s h path variant source rows

abbrev pub serve_existing :
    Crypto → Secrets → Host → Bool → Bytes → ℕ → Option Source → List Cached → Reply × List Cached
serve_existing c s h admin path variant none rows = (refused 404 "Thumbnail not found", rows)
serve_existing c s h admin path variant (some source) rows =
    if not source.regular || not (supported_media h.lower path)
    then (refused 404 "Thumbnail not found", rows)
    else serve_indexed c s h path variant source (if admin then some true else h.indexed path) rows

abbrev pub serve_parsed :
    Crypto → Secrets → Host → Bool → Option (Bytes × ℕ) → List Cached → Reply × List Cached
serve_parsed c s h admin none rows = (refused 404 "Thumbnail not found", rows)
serve_parsed c s h admin (some (path, variant)) rows =
    serve_existing c s h admin path variant (h.existing path) rows

-- `thumbnail`: the reply and the cache, for the path of the request.
unfoldable pub thumbnail :
    Crypto → Secrets → Host → Bool → Bytes → List Cached → Reply × List Cached
unfolding serve_source parse_thumbnail_path
thumbnail c s h admin request_path rows =
    serve_parsed c s h admin (parse_thumbnail_path request_path) rows

-- A video as the worker's walk has found it, its time already cut to microseconds, and what ffmpeg
-- makes of it.
pub record Video : Type 0 where
  pub path : Bytes
  pub size : ℕ
  pub modified : ℕ
  pub sheet : Option Bytes

abbrev pub is_up_to_date : Video → Option Cached → Bool
is_up_to_date v none = false
is_up_to_date v (some r) = (r.size == v.size) && (r.modified == v.modified)

abbrev pub store_video : Video → Bytes → Bool → Option (Bytes × Bytes) → List Cached → List Cached
store_video v key store_fails none rows = rows
store_video v key store_fails (some sealed) rows =
    if store_fails then rows else store_row (new_row key small_width v.size v.modified sealed) rows

abbrev pub store_sheet :
    Crypto → Secrets → Option Bytes → Bool → Video → Option Bytes → List Cached → List Cached
store_sheet c s fresh store_fails v none rows = rows
store_sheet c s fresh store_fails v (some sheet) rows =
    store_video v (thumbnail_key c s v.path) store_fails
      (encrypt_thumbnail c s (thumbnail_additional_data (thumbnail_key c s v.path) small_width)
        sheet fresh)
      rows

-- `ensureVideoThumbnail`: the cache behind it, whether it returns an error or not.
unfoldable pub ensure_video_thumbnail :
    Crypto → Secrets → Option Bytes → Bool → Bool → Video → List Cached → List Cached
unfolding encrypt_thumbnail store_row find_row thumbnail_additional_data
ensure_video_thumbnail c s fresh query_fails store_fails v rows =
    if query_fails || is_up_to_date v (find_row (thumbnail_key c s v.path) small_width rows)
    then rows
    else store_sheet c s fresh store_fails v v.sheet rows
