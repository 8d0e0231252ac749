-- ===== src/Gallery/Favorites.antt =====
-- Favourites and titles of images, go_api/cmd/api/handlers.go.
use imageboard.Base.{
  ℕ, ◌≤◌, ◌≡◌, ap, ◌∙◌, sym, ◌∷◌, [], ◌++◌, List, true, false, ◌&&◌, ◌||◌, not, Option, none, some,
  ◌==◌, arith, Bool-cases, inl, inr,
}
use imageboard.Text.{Bytes, join_fields}
use imageboard.Gallery.{
  Gallery, Database, Favorite, has_picture, path_id, is_favorite_of, is_favorite, delete_favorite,
  favorite, unfavorite, set_title, retitle, retitle_decoded, favorite_image, unfavorite_image,
  is_bad_title,
}
use imageboard.Gallery.Tidy.{IsTidy, count_favorites}
use imageboard.Gallery.Likes.{
  is_favorite-append, count_favorites-append, count_favorites_none, is_favorite-delete_favorite,
  count_favorites-delete_favorite, has_picture-set_title,
}

module _ (user image : ℕ) (g : Gallery) (t : IsTidy g) (pic : has_picture image g.pictures ≡ true)
    (free : is_favorite user image g.favorites ≡ false) where
  abbrev new_favorite : Favorite
  new_favorite = record { user = user; image = image }

  new_favorite_liked :
      (u i : ℕ)
      → is_favorite u i (g.favorites ++ new_favorite ∷ []) ≡ true
      → has_picture i g.pictures ≡ true
  new_favorite_liked u i h = elim (Bool-cases (is_favorite u i g.favorites)) [
    | inl old ↦ t.liked u i old
    | inr new ↦
        let e : image ≡ i =
          ground (arith, h, new, is_favorite-append u i g.favorites new_favorite) in
        ap (λ k. has_picture k g.pictures) (sym e) ∙ pic
  ]

  new_favorite_once : (u i : ℕ) → count_favorites u i (g.favorites ++ new_favorite ∷ []) ≤ 1
  new_favorite_once u i = elim (Bool-cases (is_favorite_of u i new_favorite)) [
    | inr q ↦ ground (arith, count_favorites-append u i g.favorites new_favorite, t.liked_once u i)
    | inl q ↦
        let none_yet : count_favorites u i g.favorites ≡ 0 = count_favorites_none u i g.favorites (
          ap (λ k. is_favorite k i g.favorites) (sym (ground (arith, q)))
          ∙ ap (λ k. is_favorite user k g.favorites) (sym (ground (arith, q)))
          ∙ free) in
        ground (arith, count_favorites-append u i g.favorites new_favorite, none_yet)
  ]

  new_favorite-IsTidy : IsTidy (record g { favorites = g.favorites ++ new_favorite ∷ [] })
  new_favorite-IsTidy = record {
    comments = t.comments;
    names = t.names;
    known = t.known;
    linked = t.linked;
    once = t.once;
    liked = new_favorite_liked;
    liked_once = new_favorite_once;
  }

pub favorite-IsTidy :
    (db : Database) (g : Gallery) (user image : ℕ) → IsTidy g → IsTidy (favorite db g user image).1
unfolding favorite
favorite-IsTidy db g user image t = elim (Bool-cases db.write_fails) [
  | inl q ↦ rw (q, favorite) t
  | inr q ↦
      elim (Bool-cases (has_picture image g.pictures && not (is_favorite user image g.favorites))) [
        | inr p ↦ rw (q, p, favorite) t
        | inl p ↦
            rw (q, p, favorite)
              (new_favorite-IsTidy user image g t (ground (arith, p)) (ground (arith, p)))
      ]
]

deleted-IsTidy :
    (g : Gallery) (user image : ℕ)
    → IsTidy g
    → IsTidy (record g { favorites = delete_favorite user image g.favorites })
deleted-IsTidy g user image t = record {
  comments = t.comments;
  names = t.names;
  known = t.known;
  linked = t.linked;
  once = t.once;
  liked = λ u i h.
      t.liked u i (ground (arith, h, is_favorite-delete_favorite u i user image g.favorites));
  liked_once = λ u i.
      omega (arith, t.liked_once u i, count_favorites-delete_favorite u i user image g.favorites);
}

pub unfavorite-IsTidy :
    (db : Database) (g : Gallery) (user image : ℕ)
    → IsTidy g
    → IsTidy (unfavorite db g user image).1
unfolding unfavorite
unfavorite-IsTidy db g user image t = elim (Bool-cases db.write_fails) [
  | inl q ↦ rw (q, unfavorite) t
  | inr q ↦ elim (Bool-cases (is_favorite user image g.favorites)) [
    | inr p ↦ rw (q, p, unfavorite) t
    | inl p ↦ rw (q, p, unfavorite) (deleted-IsTidy g user image t)
  ]
]

retitled-IsTidy :
    (g : Gallery) (title : Bytes) (image : ℕ) (edits : List ℕ)
    → IsTidy g
    → IsTidy (record g { pictures = set_title title image g.pictures; edits = edits })
retitled-IsTidy g title image edits t = record {
  comments = t.comments;
  names = t.names;
  known = t.known;
  linked = λ i x h. has_picture-set_title title image i g.pictures ∙ t.linked i x h;
  once = t.once;
  liked = λ u i h. has_picture-set_title title image i g.pictures ∙ t.liked u i h;
  liked_once = t.liked_once;
}

pub retitle_decoded-IsTidy :
    (db : Database) (g : Gallery) (image : ℕ) (name : Option Bytes)
    → IsTidy g
    → IsTidy (retitle_decoded db g image name).1
unfolding retitle_decoded retitle
retitle_decoded-IsTidy db g image none t = t
retitle_decoded-IsTidy db g image (some name) t =
    elim (Bool-cases (is_bad_title (join_fields name))) [
      | inl q ↦ rw q t
      | inr q ↦ rw q (elim (Bool-cases db.write_fails) [
        | inl p ↦ rw p t
        | inr p ↦ rw p (elim (Bool-cases (has_picture image g.pictures)) [
          | inr o ↦ rw o t
          | inl o ↦ rw o (retitled-IsTidy g (join_fields name) image _ t)
        ])
      ])
    ]

module _ (db : Database) (g : Gallery) (user image : ℕ) (writes : db.write_fails ≡ false)
    (exists : db.exists_fails ≡ false) (pic : has_picture image g.pictures ≡ true) where
  -- What is so of the favourite is so of each that is equal to it.
  same :
      (u i : ℕ)
      → ((u == user) && (i == image)) ≡ true
      → is_favorite u i g.favorites ≡ is_favorite user image g.favorites
  same u i h =
      ap (λ k. is_favorite k i g.favorites) (ground (arith, h))
      ∙ ap (λ k. is_favorite user k g.favorites) (ground (arith, h))

  favorite_works :
      ((favorite db g user image).0 ≡ 200)
      × ((u i : ℕ)
          → is_favorite u i (favorite db g user image).1.favorites
            ≡ (is_favorite u i g.favorites || ((u == user) && (i == image))))
  unfolding favorite
  favorite_works = elim (Bool-cases (is_favorite user image g.favorites)) [
    | inl q ↦ (ground (arith, writes, exists, pic), λ u i. ground (arith, writes, pic, q, same u i))
    | inr q ↦ (
      ground (arith, writes, exists, pic),
      λ u i. ground (
        arith,
        writes,
        pic,
        q,
        is_favorite-append u i g.favorites (record { user = user; image = image }),
      ),
    )
  ]

  unfavorite_works :
      ((unfavorite db g user image).0 ≡ 200)
      × ((u i : ℕ)
          → is_favorite u i (unfavorite db g user image).1.favorites
            ≡ (is_favorite u i g.favorites && not ((u == user) && (i == image))))
  unfolding unfavorite
  unfavorite_works = elim (Bool-cases (is_favorite user image g.favorites)) [
    | inl q ↦ (
      ground (arith, writes, exists, pic),
      λ u i. ground (arith, writes, pic, q, is_favorite-delete_favorite u i user image g.favorites),
    )
    | inr q ↦ (ground (arith, writes, exists, pic), λ u i. ground (arith, writes, pic, q, same u i))
  ]

-- Where the database works and the image exists, `favoriteImage` and `unfavoriteImage` reply 200,
-- whether the image was a favourite or not, and add it to the user's favourites or take it away, and
-- no other.
pub favorites_lem :
    (db : Database) (g : Gallery) (user image : ℕ) (id_text : Bytes)
    → db.write_fails ≡ false
    → db.exists_fails ≡ false
    → path_id id_text ≡ some image
    → has_picture image g.pictures ≡ true
    → let (added, with_it) = favorite_image db g user id_text in
      let (removed, without) = unfavorite_image db g user id_text in
      (added ≡ 200)
      × (removed ≡ 200)
      × ((u i : ℕ)
          → is_favorite u i with_it.favorites
            ≡ (is_favorite u i g.favorites || ((u == user) && (i == image))))
      × ((u i : ℕ)
          → is_favorite u i without.favorites
            ≡ (is_favorite u i g.favorites && not ((u == user) && (i == image))))
unfolding favorite_image unfavorite_image
favorites_lem db g user image id_text writes exists id pic =
    let (added, with_it) = favorite_works db g user image writes exists pic in
    let (removed, without) = unfavorite_works db g user image writes exists pic in
    rw (id, favorite_image, unfavorite_image) (added, removed, with_it, without)
