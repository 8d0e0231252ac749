-- ===== src/Explorer.antt =====
-- The listing of a folder, go_api/cmd/api/handlers.go `explore`. `sort.Slice` is a parameter.
pub mod Joined
pub mod Entries
mod Tests
use imageboard.Base.{
  ℕ, ◌∷◌, [], List, map, Bool, true, false, ◌&&◌, ◌||◌, not, Option, none, some, ltb, ◌==◌,
  if◌then◌else◌,
}
use imageboard.Text.{Bytes, is_nil}
use imageboard.Paths.{safe_component, canonical_path, join_canonical}
use imageboard.Paths.Kinds.{supported_media, supported_document, is_video}
use imageboard.Gallery.Context.{has_name}
use imageboard.Thumbnails.{thumb_url}
use imageboard.Index.Requests.{media_link}

pub data Kind : Type 0 where
  folder regular link special : Kind

-- An entry as `os.ReadDir` gives it; `size` is `none` where `Info` fails.
pub record DirEntry : Type 0 where
  pub name : Bytes
  pub kind : Kind
  pub size : Option ℕ

pub data Shape : Type 0 where
  directory document video image : Shape

-- `entry`
pub record Entry : Type 0 where
  pub name : Bytes
  pub path : Bytes
  pub shape : Shape
  pub media_url : Option Bytes
  pub thumbnail_url : Option Bytes
  pub size : Option ℕ
  pub indexed : Bool

abbrev pub plain_entry : Bytes → Bytes → Shape → Entry
plain_entry name path shape = record {
  name = name;
  path = path;
  shape = shape;
  media_url = none;
  thumbnail_url = none;
  size = none;
  indexed = false;
}

abbrev pub file_entry : (Bytes → Bytes) → Bytes → Bytes → Bytes → ℕ → Option Entry
file_entry lower media_url name path size =
    if supported_document lower name
    then some (plain_entry name path document)
    else if not (supported_media lower name)
    then none
    else some (record {
      name = name;
      path = path;
      shape = if is_video lower name then video else image;
      media_url = some (media_link media_url path);
      thumbnail_url = some (thumb_url path);
      size = some size;
      indexed = false;
    })

abbrev pub entry_at : (Bytes → Bytes) → Bytes → Bytes → Bytes → Kind → Option ℕ → Option Entry
entry_at lower media_url name path link size = none
entry_at lower media_url name path kind none = none
entry_at lower media_url name path folder (some size) = some (plain_entry name path directory)
entry_at lower media_url name path regular (some size) = file_entry lower media_url name path size
entry_at lower media_url name path special (some size) = none

abbrev pub add_entry : Option Entry → List Entry → List Entry
add_entry none entries = entries
add_entry (some e) entries = e ∷ entries

-- The loop over the entries of the folder.
unfoldable pub entries_of : (Bytes → Bytes) → Bytes → Bytes → List DirEntry → List Entry
entries_of lower media_url canonical [] = []
entries_of lower media_url canonical (d ∷ rest) =
    let others = entries_of lower media_url canonical rest in
    if not (safe_component d.name)
    then others
    else add_entry (entry_at lower media_url d.name (join_canonical canonical d.name) d.kind d.size)
        others

abbrev pub add_path : Option Bytes → Bytes → List Bytes → List Bytes
add_path none path paths = paths
add_path (some url) path paths = path ∷ paths

-- `mediaPaths`
unfoldable pub media_paths : List Entry → List Bytes
media_paths [] = []
media_paths (e ∷ rest) = add_path e.media_url e.path (media_paths rest)

unfoldable pub mark : (Bytes → Bool) → List Bytes → List Entry → List Entry
mark answered paths =
    map (λ (e : Entry). record e { indexed = has_name e.path paths && answered e.path })

abbrev pub is_directory : Shape → Bool
is_directory directory = true
is_directory _ = false

-- Bytewise, as Go compares strings.
unfoldable pub bytes_less : Bytes → Bytes → Bool
bytes_less s [] = false
bytes_less [] (d ∷ t) = true
bytes_less (c ∷ s) (d ∷ t) = let rest = bytes_less s t in if ltb c d then true else (c == d) && rest

unfoldable pub is_less : (Bytes → Bytes) → Entry → Entry → Bool
unfolding bytes_less
is_less lower e f =
    if is_directory e.shape && not (is_directory f.shape)
    then true
    else if not (is_directory e.shape) && is_directory f.shape
    then false
    else bytes_less (lower e.name) (lower f.name)

-- What is at a path: no folder, one that may not be read, one that cannot be read, or its entries.
pub data Found : Type 0 where
  no_folder forbidden gone : Found
  opened : List DirEntry → Found

-- The disk, and the query for the media: does it fail, and which paths does it answer?
pub record Place : Type 0 where
  pub existing : Bytes → Found
  pub query_fails : Bool
  pub answered : Bytes → Bool
  pub media_url : Bytes
  pub lower : Bytes → Bytes
  pub sort : (Entry → Entry → Bool) → List Entry → List Entry

pub data Reply : Type 0 where
  refused : ℕ → Reply
  listing : Bytes → List Entry → Reply

abbrev pub no_paths : List Bytes → Bool
no_paths [] = true
no_paths (_ ∷ _) = false

abbrev pub list_entries : Place → Bytes → List Entry → Reply
list_entries p canonical entries =
    if not (no_paths (media_paths entries)) && p.query_fails
    then refused 500
    else listing canonical
        (p.sort (is_less p.lower) (mark p.answered (media_paths entries) entries))

abbrev pub explore_found : Place → Bytes → Found → Reply
explore_found p canonical no_folder = refused 404
explore_found p canonical forbidden = refused 403
explore_found p canonical gone = refused 404
explore_found p canonical (opened entries) =
    list_entries p canonical (entries_of p.lower p.media_url canonical entries)

abbrev pub explore_path : Place → Option Bytes → Reply
explore_path p none = refused 400
explore_path p (some canonical) = explore_found p canonical (p.existing canonical)

-- `explore`, for the path that the query gives.
unfoldable pub explore : Place → Bytes → Reply
unfolding entries_of media_paths mark is_less
explore p requested = explore_path p (canonical_path requested true)
