-- ===== src/Paths.antt =====
-- Paths of the media tree and their links, go_api/cmd/api/handlers.go and main.go: a canonical
-- path joins the names of folders and file by `$`.
pub mod Escape
pub mod Links
pub mod Kinds
mod Tests
use imageboard.Base.{
  ℕ, ◌+◌, ◌-◌, ◌*◌, ◌/◌, ◌%◌, ◌∷◌, [], ◌++◌, List, map, Bool, true, false, ◌&&◌, ◌||◌, not, Option,
  none, some, ltb, leb, ◌==◌, if◌then◌else◌,
}
use imageboard.Text.{
  Bytes, codes, is_nil, any_byte, bytes_eq, has_prefix, trim_prefix, all_bool, split, join,
  hex_value, replace_byte,
}
use imageboard.Password.{contains_control}

abbrev pub is_separator : ℕ → Bool
is_separator c = (c == b'$') || (c == b'/') || (c == b'\\') || (c == 0)

unfoldable pub safe_component : Bytes → Bool
safe_component value =
    not (
      is_nil value
      || bytes_eq value (codes ".")
      || bytes_eq value (codes "..")
      || any_byte is_separator value)
    && not (contains_control value)

unfoldable pub canonical_path : Bytes → Bool → Option Bytes
unfolding safe_component
canonical_path value allow_empty =
    if is_nil value && allow_empty
    then some []
    else if is_nil value
    then none
    else if all_bool safe_component (split b'$' value)
    then some (join b'$' (split b'$' value))
    else none

unfoldable pub join_canonical : Bytes → Bytes → Bytes
join_canonical base name = if is_nil base then name else base ++ b'$' ∷ name

-- The bytes that `url.PathEscape` leaves alone.
unfoldable pub is_plain_byte : ℕ → Bool
is_plain_byte c =
    (leb b'a' c && leb c b'z')
    || (leb b'A' c && leb c b'Z')
    || (leb b'0' c && leb c b'9')
    || any_byte (λ p. p == c) (codes "-_.~$&+=:@")

abbrev pub upper_hex : ℕ → ℕ
upper_hex n = if ltb n 10 then b'0' + n else b'A' + (n - 10)

unfoldable pub escape_byte : ℕ → Bytes
unfolding is_plain_byte
escape_byte c =
    if is_plain_byte c then c ∷ [] else b'%' ∷ upper_hex (c / 16) ∷ upper_hex (c % 16) ∷ []

unfoldable pub path_escape : Bytes → Bytes
unfolding escape_byte
path_escape [] = []
path_escape (c ∷ s) = escape_byte c ++ path_escape s

abbrev pub prepend : ℕ → Option Bytes → Option Bytes
prepend c none = none
prepend c (some s) = some (c ∷ s)

-- Two hexadecimal digits and what follows them.
unfoldable pub prepend_hex : Option ℕ → Option ℕ → Option Bytes → Option Bytes
prepend_hex none low rest = none
prepend_hex (some high) none rest = none
prepend_hex (some high) (some low) rest = prepend (high * 16 + low) rest

-- `url.PathUnescape`
unfoldable pub path_unescape : Bytes → Option Bytes
unfolding prepend_hex
path_unescape [] = some []
path_unescape (c ∷ []) = if c == b'%' then none else some (c ∷ [])
path_unescape (c ∷ h ∷ []) =
    let rest = path_unescape (h ∷ []) in if c == b'%' then none else prepend c rest
path_unescape (c ∷ h ∷ l ∷ s) = elim (c == b'%') [
  | true ↦ prepend_hex (hex_value h) (hex_value l) (path_unescape s)
  | false ↦ prepend c (path_unescape (h ∷ l ∷ s))
]

unfoldable pub encoded_path : Bytes → Bytes
unfolding path_escape
encoded_path path = join b'/' (map path_escape (split b'$' path))

abbrev first_part : List Bytes → Bytes
first_part [] = []
first_part (s ∷ _) = s

-- All parts but the last.
unfoldable pub but_last : List Bytes → List Bytes
but_last [] = []
but_last (p ∷ []) = []
but_last (p ∷ q ∷ rest) = p ∷ but_last (q ∷ rest)

-- What `authorizeMedia` asks of the index: nothing, as the request is refused or is for no media, or
-- whether a path is there.
pub data Asked : Type 0 where
  forbidden other : Asked
  media : Bytes → Asked

unfoldable pub asked_thumbnail : List Bytes → Asked
unfolding but_last
asked_thumbnail (p ∷ q ∷ rest) = media (join b'$' (but_last (p ∷ q ∷ rest)))
asked_thumbnail _ = forbidden

unfoldable pub asked_original : Option Bytes → Asked
unfolding asked_thumbnail
asked_original none = forbidden
asked_original (some original) =
    if has_prefix original (codes "/media/")
    then media (replace_byte b'/' b'$' (trim_prefix original (codes "/media/")))
    else if has_prefix original (codes "/thumbnail/")
    then asked_thumbnail (split b'/' (trim_prefix original (codes "/thumbnail/")))
    else other

unfoldable pub asked : Bytes → Asked
unfolding asked_original path_unescape
asked uri = asked_original (path_unescape (first_part (split b'?' uri)))

-- The status, by what the index has.
unfoldable pub allow : (Bytes → Bool) → Bool → Asked → ℕ
allow indexed admin forbidden = 403
allow indexed admin other = 204
allow indexed admin (media path) = if admin || indexed path then 204 else 403

-- `authorizeMedia`: the status; a query of the index that fails counts as not found.
unfoldable pub authorize_media : (Bytes → Bool) → Bool → Bytes → ℕ
unfolding allow asked
authorize_media indexed admin uri = allow indexed admin (asked uri)
