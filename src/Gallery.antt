-- ===== src/Gallery.antt =====
-- Favourites, titles and tags of images, go_api/cmd/api/handlers.go: `favoriteImage`,
-- `unfavoriteImage`, `updateImage`; `contextUpdate` is in Gallery/Context.
pub mod Context
pub mod Names
pub mod Tagging
pub mod Replace
pub mod Ensures
pub mod Serve
pub mod Tidy
pub mod Invariant
pub mod Atomic
pub mod Likes
pub mod Favorites
mod Tests
use imageboard.Base.{
  ℕ, ◌∷◌, [], ◌++◌, List, Bool, true, false, ◌&&◌, ◌||◌, not, Option, none, some, ltb, ◌==◌,
  if◌then◌else◌, length,
}
use imageboard.Text.{Bytes, bytes_eq, is_nil, join_fields, parse_int, positive, int32_bound}
use imageboard.Password.{contains_control}
use imageboard.Comments.{Message}
use imageboard.Accounts.{Commit}

pub record Picture : Type 0 where
  pub id : ℕ
  pub title : Bytes

-- A row of tag_image; a tag is known by its name, which is unique.
pub record TagLink : Type 0 where
  pub image : ℕ
  pub tag : Bytes

-- A row of image_favorite.
pub record Favorite : Type 0 where
  pub user : ℕ
  pub image : ℕ

-- The tables image, tag, tag_image, image_favorite, message, and the ids that audit_event has of
-- images.
pub record Gallery : Type 0 where
  pub pictures : List Picture
  pub tags : List Bytes
  pub links : List TagLink
  pub favorites : List Favorite
  pub messages : List Message
  pub edits : List ℕ

-- Which statements the database fails, how a commit ends, the serial of the table message, and in
-- which order Go goes through a map of these names.
pub record Database : Type 0 where
  pub write_fails : Bool
  pub exists_fails : Bool
  pub audit_fails : Bool
  pub reload_fails : Bool
  pub begin_fails : Bool
  pub find_fails : Bool
  pub delete_fails : Bool
  pub tag_fails : Bytes → Bool
  pub link_fails : Bytes → Bool
  pub comment_fails : Bool
  pub commit_ends : Commit
  pub new_id : ℕ
  pub order : List Bytes → List Bytes

unfoldable pub has_picture : ℕ → List Picture → Bool
has_picture id [] = false
has_picture id (p ∷ rest) = (p.id == id) || has_picture id rest

-- `pathID`
unfoldable pub path_id : Bytes → Option ℕ
path_id id_text = positive (parse_int int32_bound id_text)

-- What is done to the image that the path names.
abbrev pub on_image : Gallery → Option ℕ → (ℕ → ℕ × Gallery) → ℕ × Gallery
on_image g none f = (404, g)
on_image g (some id) f = f id

abbrev pub is_favorite_of : ℕ → ℕ → Favorite → Bool
is_favorite_of user image f = (f.user == user) && (f.image == image)

unfoldable pub is_favorite : ℕ → ℕ → List Favorite → Bool
is_favorite user image [] = false
is_favorite user image (f ∷ rest) = is_favorite_of user image f || is_favorite user image rest

unfoldable pub delete_favorite : ℕ → ℕ → List Favorite → List Favorite
delete_favorite user image [] = []
delete_favorite user image (f ∷ rest) =
    let kept = delete_favorite user image rest in
    if is_favorite_of user image f then kept else f ∷ kept

-- The answer where no row was changed.
abbrev pub unchanged : Database → ℕ → Gallery → ℕ × Gallery
unchanged db id g = (if db.exists_fails || not (has_picture id g.pictures) then 404 else 200, g)

unfoldable pub favorite : Database → Gallery → ℕ → ℕ → ℕ × Gallery
favorite db g user id =
    if db.write_fails
    then (500, g)
    else if has_picture id g.pictures && not (is_favorite user id g.favorites)
    then (200, record g { favorites = g.favorites ++ (record { user = user; image = id }) ∷ [] })
    else unchanged db id g

-- `favoriteImage`: the status of the reply and the tables.
unfoldable pub favorite_image : Database → Gallery → ℕ → Bytes → ℕ × Gallery
unfolding favorite path_id
favorite_image db g user id_text = on_image g (path_id id_text) (favorite db g user)

unfoldable pub unfavorite : Database → Gallery → ℕ → ℕ → ℕ × Gallery
unfavorite db g user id =
    if db.write_fails
    then (500, g)
    else if is_favorite user id g.favorites
    then (200, record g { favorites = delete_favorite user id g.favorites })
    else unchanged db id g

-- `unfavoriteImage`
unfoldable pub unfavorite_image : Database → Gallery → ℕ → Bytes → ℕ × Gallery
unfolding unfavorite path_id
unfavorite_image db g user id_text = on_image g (path_id id_text) (unfavorite db g user)

unfoldable pub is_bad_title : Bytes → Bool
is_bad_title name = is_nil name || ltb 200 (length name) || contains_control name

unfoldable pub set_title : Bytes → ℕ → List Picture → List Picture
set_title title id [] = []
set_title title id (p ∷ rest) =
    (if p.id == id then record p { title = title } else p) ∷ set_title title id rest

-- `updateImage` once the body is decoded. What becomes of the row for the audit log does not matter.
unfoldable pub retitle : Database → Gallery → ℕ → Bytes → ℕ × Gallery
retitle db g id name =
    if is_bad_title (join_fields name)
    then (422, g)
    else if db.write_fails
    then (500, g)
    else if not (has_picture id g.pictures)
    then (404, g)
    else (
      if db.reload_fails then 500 else 200,
      record g {
        pictures = set_title (join_fields name) id g.pictures;
        edits = if db.audit_fails then g.edits else g.edits ++ id ∷ [];
      },
    )

unfoldable pub retitle_decoded : Database → Gallery → ℕ → Option Bytes → ℕ × Gallery
unfolding retitle
retitle_decoded db g id none = (422, g)
retitle_decoded db g id (some name) = retitle db g id name

-- `updateImage`
unfoldable pub update_image : Database → Gallery → Bytes → Option Bytes → ℕ × Gallery
unfolding retitle_decoded path_id
update_image db g id_text decoded =
    on_image g (path_id id_text) (λ id. retitle_decoded db g id decoded)
