-- ===== src/Gallery/Likes.antt =====
-- The rows of favourites and titles, go_api/cmd/api/handlers.go.
use imageboard.Base.{
  ℕ, ◌+◌, ◌≤◌, ◌≡◌, refl, ◌∷◌, [], ◌++◌, List, false, ◌&&◌, ◌||◌, not, ◌==◌, arith,
}
use imageboard.Text.{Bytes}
use imageboard.Gallery.{
  Favorite, Picture, has_picture, is_favorite_of, is_favorite, delete_favorite, set_title,
}
use imageboard.Gallery.Names.{one_if}
use imageboard.Gallery.Tidy.{count_favorites}

pub is_favorite-append :
    (u i : ℕ) (favorites : List Favorite) (f : Favorite)
    → is_favorite u i (favorites ++ f ∷ []) ≡ (is_favorite u i favorites || is_favorite_of u i f)
unfolding is_favorite
is_favorite-append u i [] f = ground arith
is_favorite-append u i (k ∷ favorites) f = ground (arith, is_favorite-append u i favorites f)

pub count_favorites-append :
    (u i : ℕ) (favorites : List Favorite) (f : Favorite)
    → count_favorites u i (favorites ++ f ∷ [])
      ≡ count_favorites u i favorites + one_if (is_favorite_of u i f)
unfolding count_favorites
count_favorites-append u i [] f = omega arith
count_favorites-append u i (k ∷ favorites) f = omega (arith, count_favorites-append u i favorites f)

pub count_favorites_none :
    (u i : ℕ) (favorites : List Favorite)
    → is_favorite u i favorites ≡ false
    → count_favorites u i favorites ≡ 0
unfolding count_favorites is_favorite
count_favorites_none u i [] h = refl
count_favorites_none u i (f ∷ favorites) h = ground (arith, h, count_favorites_none u i favorites)

pub is_favorite-delete_favorite :
    (u i user image : ℕ) (favorites : List Favorite)
    → is_favorite u i (delete_favorite user image favorites)
      ≡ (is_favorite u i favorites && not ((user == u) && (image == i)))
unfolding is_favorite delete_favorite
is_favorite-delete_favorite u i user image [] = ground arith
is_favorite-delete_favorite u i user image (f ∷ favorites) =
    ground (arith, is_favorite-delete_favorite u i user image favorites)

pub count_favorites-delete_favorite :
    (u i user image : ℕ) (favorites : List Favorite)
    → count_favorites u i (delete_favorite user image favorites) ≤ count_favorites u i favorites
unfolding count_favorites delete_favorite
count_favorites-delete_favorite u i user image [] = omega arith
count_favorites-delete_favorite u i user image (f ∷ favorites) =
    ground (arith, count_favorites-delete_favorite u i user image favorites)

pub has_picture-set_title :
    (title : Bytes) (id i : ℕ) (pictures : List Picture)
    → has_picture i (set_title title id pictures) ≡ has_picture i pictures
unfolding has_picture set_title
has_picture-set_title title id i [] = refl
has_picture-set_title title id i (p ∷ pictures) =
    ground (arith, has_picture-set_title title id i pictures)
