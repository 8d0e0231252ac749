-- ===== src/Thumbnails/Tests.antt =====
-- Thumbnails with a toy cipher, which keeps the text as it is and marks its end.
use imageboard.Base.{ℕ, ◌≡◌, refl, ◌∷◌, [], List, true, false, some, arith}
use imageboard.Text.{Bytes, codes, bytes_eq, split, join, any_byte, runes, has_prefix, trim_prefix}
use imageboard.Password.{contains_control}
use imageboard.Paths.{canonical_path, path_unescape, but_last}
use imageboard.Paths.Kinds.{supported_media, is_video}
use imageboard.Thumbnails.{
  Crypto, Secrets, Cached, find_row, parse_thumbnail_path, thumb_url, small_width,
}
use imageboard.Thumbnails.Serve.{
  Source, Host, image, microseconds, thumbnail, Video, ensure_video_thumbnail,
}
use imageboard.Thumbnails.Rows.{Opens}
use imageboard.Thumbnails.Faithful.{Made, IsSafe, IsFaithful}
use imageboard.Thumbnails.Current.{Tells, thumbnail_current}
use imageboard.Thumbnails.Video.{thumbnail-ensure_video_thumbnail}
use imageboard.Thumbnails.Links.{parse_thumbnail_path-thumb_url}

abbrev crypto : Crypto
crypto = record {
  mac = λ key text. text;
  seal = λ key nonce text additional. text;
  open_sealed = λ key nonce text additional. some text;
  nonce_size = 1;
}

abbrev secrets : Secrets
secrets = record { cache_key = []; encryption_key = [] }

crypto-Opens : Opens crypto
crypto-Opens = record { opens = λ key nonce text additional n. refl }

crypto-IsSafe : IsSafe crypto secrets
crypto-IsSafe = record { opens = crypto-Opens; distinct = λ p q e. e }

abbrev clip_path : Bytes
clip_path = codes "a$b.mp4"

abbrev made : Made
made path variant size modified = some path

abbrev clip_source : Source
clip_source = record { size = 9; modified = 5000001; regular = true }

abbrev host : Host
host = record {
  existing = λ path. some clip_source;
  indexed = λ path. some true;
  generate = λ path variant. some path;
  nonce = some (7 ∷ []);
  query_fails = false;
  delete_fails = false;
  store_fails = true;
  lower = λ s. s;
}

abbrev clip : Video
clip = record { path = clip_path; size = 9; modified = 5000; sheet = some (codes "jpeg") }

abbrev request : Bytes
request = codes "/thumbnail/a/b.mp4/small"

parsed_request : parse_thumbnail_path request ≡ some (clip_path, small_width)
unfolding parse_thumbnail_path has_prefix trim_prefix split but_last join canonical_path bytes_eq
    any_byte contains_control runes
parsed_request = refl

abbrev no_rows : List Cached
no_rows = []

-- A host that stores what it makes: the request for a picture is answered by an image.
abbrev storing : Host
storing = record host { store_fails = false }

abbrev picture_path : Bytes
picture_path = codes "a$b.png"

abbrev picture_request : Bytes
picture_request = codes "/thumbnail/a/b.png/small"

storing-Tells : Tells crypto made storing
storing-Tells = record {
  generates = λ path variant source e. refl;
  nonces = λ nonce e. ground (arith, e);
}

picture_given_out :
    (thumbnail crypto secrets storing false picture_request no_rows).0 ≡ image picture_path
unfolding thumbnail parse_thumbnail_path has_prefix trim_prefix split but_last join canonical_path
    bytes_eq any_byte contains_control runes find_row supported_media is_video
picture_given_out = refl

thumbnail_current_example :
    let (reply, rows') = thumbnail crypto secrets storing false picture_request no_rows in
    ((t : Bytes)
      → reply ≡ image t
      → (path : Bytes) × (variant : ℕ) × (source : Source) × (parse_thumbnail_path picture_request
          ≡ some (path, variant))
        × (storing.existing path ≡ some source)
        × (made path variant source.size (microseconds source.modified) ≡ some t))
    × IsFaithful crypto secrets made rows'
unfolding find_row
thumbnail_current_example =
    thumbnail_current crypto secrets made storing false picture_request no_rows crypto-IsSafe
      storing-Tells (λ path variant r t e d. absurd (ground (arith, e)))

thumbnail-ensure_video_thumbnail_example :
    let after = ensure_video_thumbnail crypto secrets (some (7 ∷ [])) false false clip no_rows in
    thumbnail crypto secrets host false request after ≡ (image (codes "jpeg"), after)
unfolding find_row supported_media bytes_eq any_byte
thumbnail-ensure_video_thumbnail_example =
    thumbnail-ensure_video_thumbnail crypto secrets host clip (codes "jpeg") (7 ∷ []) clip_source
      false request no_rows crypto-Opens refl refl refl parsed_request refl refl refl refl refl refl

clip_canonical : canonical_path clip_path false ≡ some clip_path
unfolding canonical_path split bytes_eq any_byte contains_control runes join
clip_canonical = refl

parse_thumbnail_path-thumb_url_example :
    (original : Bytes) × (path_unescape (thumb_url clip_path) ≡ some original)
    × (parse_thumbnail_path original ≡ some (clip_path, small_width))
parse_thumbnail_path-thumb_url_example =
    parse_thumbnail_path-thumb_url clip_path (ground arith) clip_canonical
