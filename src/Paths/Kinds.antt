-- ===== src/Paths/Kinds.antt =====
-- Kinds of files by their names, go_api/cmd/api/handlers.go `mediaKind`, `supportedMedia` and
-- `supportedDocument`, and index_worker/cmd/index-worker/main.go `supportedMedia`, `isVideo`.
-- `lower` is `strings.ToLower`.
use imageboard.Base.{◌∷◌, [], Bool, false, ◌&&◌, ◌||◌, not, ◌==◌, List, if◌then◌else◌}
use imageboard.Text.{Bytes, codes, is_nil, any_byte, bytes_eq}

-- `filepath.Ext`: from the last dot of the last element on.
unfoldable pub extension : Bytes → Bytes
extension [] = []
extension (c ∷ s) =
    let rest = extension s in
    if not (is_nil rest)
    then rest
    else if (c == b'.') && not (any_byte (λ b. b == b'/') s)
    then c ∷ s
    else []

unfoldable pub is_one_of : Bytes → List Bytes → Bool
is_one_of s [] = false
is_one_of s (t ∷ rest) = bytes_eq s t || is_one_of s rest

abbrev pub video_extensions : List Bytes
video_extensions =
    codes ".avi"
    ∷ codes ".m4v"
    ∷ codes ".mpe"
    ∷ codes ".mpeg"
    ∷ codes ".mpg"
    ∷ codes ".mov"
    ∷ codes ".mp4"
    ∷ codes ".webm"
    ∷ codes ".wmv"
    ∷ []

abbrev pub media_extensions : List Bytes
media_extensions =
    codes ".avif"
    ∷ codes ".avi"
    ∷ codes ".bmp"
    ∷ codes ".gif"
    ∷ codes ".jpeg"
    ∷ codes ".jpg"
    ∷ codes ".m4v"
    ∷ codes ".mpe"
    ∷ codes ".mpeg"
    ∷ codes ".mpg"
    ∷ codes ".mov"
    ∷ codes ".mp4"
    ∷ codes ".png"
    ∷ codes ".tif"
    ∷ codes ".tiff"
    ∷ codes ".webm"
    ∷ codes ".webp"
    ∷ codes ".wmv"
    ∷ []

abbrev pub document_extensions : List Bytes
document_extensions =
    codes ".htm" ∷ codes ".html" ∷ codes ".log" ∷ codes ".md" ∷ codes ".text" ∷ codes ".txt" ∷ []

-- `isVideo`; `mediaKind` says "video" for the same names, and "image" for all others.
unfoldable pub is_video : (Bytes → Bytes) → Bytes → Bool
unfolding extension is_one_of
is_video lower name = is_one_of (lower (extension name)) video_extensions

unfoldable pub supported_media : (Bytes → Bytes) → Bytes → Bool
unfolding extension is_one_of
supported_media lower name = is_one_of (lower (extension name)) media_extensions

unfoldable pub supported_document : (Bytes → Bytes) → Bytes → Bool
unfolding extension is_one_of
supported_document lower name = is_one_of (lower (extension name)) document_extensions
