-- ===== src/Thumbnails.antt =====
-- The thumbnails and their encrypted cache: go_api/cmd/api/thumbnail.go, and
-- index_worker/cmd/index-worker/thumbnails.go, which shares the cache. AES-GCM and HMAC-SHA256 are
-- parameters, and so is what makes a picture of a file.
pub mod Serve
pub mod Rows
pub mod Faithful
pub mod Current
pub mod Links
pub mod Video
mod Tests
use imageboard.Base.{
  ℕ, ◌+◌, ◌*◌, ◌/◌, ◌%◌, ◌∷◌, [], ◌++◌, List, Bool, true, false, ◌&&◌, ◌||◌, not, Option, none,
  some, ◌==◌, if◌then◌else◌, length,
}
use imageboard.Text.{Bytes, codes, bytes_eq, has_prefix, trim_prefix, split, join}
use imageboard.Paths.{canonical_path, but_last, encoded_path}

-- `mac` is HMAC-SHA256, `seal` and `open_sealed` are the functions those of AES-GCM, each with its key first.
pub record Crypto : Type 0 where
  pub mac : Bytes → Bytes → Bytes
  pub seal : Bytes → Bytes → Bytes → Bytes → Bytes
  pub open_sealed : Bytes → Bytes → Bytes → Bytes → Option Bytes
  pub nonce_size : ℕ

-- `thumbnailCacheKey` and `thumbnailEncryptionKey` of the configuration.
pub record Secrets : Type 0 where
  pub cache_key : Bytes
  pub encryption_key : Bytes

-- A row of thumbnail_cache; times are in microseconds.
pub record Cached : Type 0 where
  pub key : Bytes
  pub variant : ℕ
  pub size : ℕ
  pub modified : ℕ
  pub nonce : Bytes
  pub ciphertext : Bytes

abbrev pub small_width : ℕ
small_width = 160

abbrev pub large_width : ℕ
large_width = 320

abbrev pub variant_of : Bytes → Option ℕ
variant_of name =
    if bytes_eq name (codes "small")
    then some small_width
    else if bytes_eq name (codes "large")
    then some large_width
    else none

abbrev pub last_part : List Bytes → Bytes
last_part [] = []
last_part (p ∷ []) = p
last_part (p ∷ q ∷ r) = last_part (q ∷ r)

abbrev pub with_variant : Option Bytes → Option ℕ → Option (Bytes × ℕ)
with_variant (some path) (some variant) = some (path, variant)
with_variant _ _ = none

abbrev pub parse_thumbnail_parts : List Bytes → Option (Bytes × ℕ)
parse_thumbnail_parts (p ∷ q ∷ r) =
    with_variant (canonical_path (join b'$' (but_last (p ∷ q ∷ r))) false)
      (variant_of (last_part (q ∷ r)))
parse_thumbnail_parts _ = none

-- The link to the small thumbnail, which `scanImages`, `explore` and the rankings give out.
unfoldable pub thumb_url : Bytes → Bytes
thumb_url path = codes "/thumbnail/" ++ (encoded_path path ++ codes "/small")

-- `parseThumbnailPath`
unfoldable pub parse_thumbnail_path : Bytes → Option (Bytes × ℕ)
parse_thumbnail_path request_path =
    if has_prefix request_path (codes "/thumbnail/")
    then parse_thumbnail_parts (split b'/' (trim_prefix request_path (codes "/thumbnail/")))
    else none

-- `thumbnailCacheKey` of the API, `thumbnailKey` of the worker.
abbrev pub thumbnail_key : Crypto → Secrets → Bytes → Bytes
thumbnail_key c s path = c.mac s.cache_key path

-- `thumbnailAdditionalData`, of both programs: two bytes, the higher first.
unfoldable pub thumbnail_additional_data : Bytes → ℕ → Bytes
thumbnail_additional_data key variant = key ++ variant / 256 % 256 ∷ variant % 256 ∷ []

-- `encryptThumbnail`, of both programs: the nonce, if `rand.Read` gives one, and the ciphertext.
unfoldable pub encrypt_thumbnail :
    Crypto → Secrets → Bytes → Bytes → Option Bytes → Option (Bytes × Bytes)
encrypt_thumbnail c s additional plaintext none = none
encrypt_thumbnail c s additional plaintext (some nonce) =
    some (nonce, c.seal s.encryption_key nonce plaintext additional)

unfoldable pub decrypt_thumbnail : Crypto → Secrets → Bytes → Bytes → Bytes → Option Bytes
decrypt_thumbnail c s additional nonce ciphertext =
    if length nonce == c.nonce_size
    then c.open_sealed s.encryption_key nonce ciphertext additional
    else none

abbrev pub is_row : Bytes → ℕ → Cached → Bool
is_row key variant r = bytes_eq r.key key && (r.variant == variant)

unfoldable pub find_row : Bytes → ℕ → List Cached → Option Cached
find_row key variant [] = none
find_row key variant (r ∷ rest) = if is_row key variant r then some r else find_row key variant rest

unfoldable pub delete_row : Bytes → ℕ → List Cached → List Cached
delete_row key variant [] = []
delete_row key variant (r ∷ rest) =
    let kept = delete_row key variant rest in if is_row key variant r then kept else r ∷ kept

-- INSERT … ON CONFLICT (cache_key, variant) DO UPDATE, of both programs.
unfoldable pub store_row : Cached → List Cached → List Cached
store_row new [] = new ∷ []
store_row new (r ∷ rest) =
    if is_row new.key new.variant r then new ∷ rest else r ∷ store_row new rest

-- What `loadThumbnail` gives: an error, nothing, or the thumbnail.
pub data Loaded : Type 0 where
  unavailable absent : Loaded
  loaded : Bytes → Loaded

abbrev pub opened : Bool → Bytes → ℕ → Option Bytes → List Cached → Loaded × List Cached
opened delete_fails key variant (some thumbnail) rows = (loaded thumbnail, rows)
opened delete_fails key variant none rows =
    if delete_fails then (unavailable, rows) else (absent, delete_row key variant rows)

abbrev pub load_found :
    Crypto → Secrets → Bool → Bytes → ℕ → ℕ → ℕ → Option Cached → List Cached → Loaded × List Cached
load_found c s delete_fails key variant size modified none rows = (absent, rows)
load_found c s delete_fails key variant size modified (some r) rows =
    if not (r.size == size) || not (r.modified == modified)
    then (absent, rows)
    else opened delete_fails key variant
        (decrypt_thumbnail c s (thumbnail_additional_data key variant) r.nonce r.ciphertext) rows

-- `loadThumbnail`; the query or the deletion of a row that does not open may fail.
unfoldable pub load_thumbnail :
    Crypto → Secrets → Bool → Bool → Bytes → ℕ → ℕ → ℕ → List Cached → Loaded × List Cached
unfolding find_row delete_row decrypt_thumbnail thumbnail_additional_data
load_thumbnail c s query_fails delete_fails key variant size modified rows =
    if query_fails
    then (unavailable, rows)
    else load_found c s delete_fails key variant size modified (find_row key variant rows) rows
