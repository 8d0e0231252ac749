-- ===== src/Gallery/Tests.antt =====
-- A gallery of two images, and requests to it.
use imageboard.Base.{
  ℕ, ◌≡◌, refl, ap, sym, ◌∙◌, ◌++◌, ◌∷◌, [], List, true, false, ◌&&◌, ◌||◌, not, none, some,
  if◌then◌else◌, ◌==◌, arith, ◌⊎◌,
}
use imageboard.Text.{
  Bytes, codes, bytes_eq_iff, trim_space, join_fields, parse_int, runes, any_byte, join,
}
use imageboard.Password.{contains_control}
use imageboard.Search.{clean_tag, is_bad_tag}
use imageboard.Accounts.{Commit, committed, undone}
use imageboard.Comments.{is_bad_comment, new_message}
use imageboard.Gallery.{
  Gallery, Database, has_picture, path_id, is_favorite, favorite_image, unfavorite_image,
}
use imageboard.Gallery.Context.{ContextBody, has_name, has_link, context_update}
use imageboard.Gallery.Names.{is_named, all_clean, Works}
use imageboard.Gallery.Replace.{context_update_replaces}
use imageboard.Gallery.Favorites.{favorites_lem}
use imageboard.Gallery.Tidy.{IsTidy, count_links, count_favorites}
use imageboard.Gallery.Serve.{new_context, serve}
use imageboard.Gallery.Invariant.{serve-IsTidy}
use imageboard.Gallery.Atomic.{serve_atomic}

abbrev lower : Bytes → Bytes
lower s = s

abbrev database : Commit → Database
database ends = record {
  write_fails = false;
  exists_fails = false;
  audit_fails = true;
  reload_fails = false;
  begin_fails = false;
  find_fails = false;
  delete_fails = false;
  tag_fails = λ name. false;
  link_fails = λ name. false;
  comment_fails = false;
  commit_ends = ends;
  new_id = 1;
  order = λ names. names;
}

database-Works : Works (database committed)
database-Works = record {
  begins = refl;
  finds = refl;
  deletes = refl;
  tags = λ name. refl;
  links = λ name. refl;
  comments = refl;
  commits = refl;
  reloads = refl;
  permutes = λ names name. refl;
}

-- Image 9 has a tag, image 10 none; user 4 likes image 10.
abbrev gallery : Gallery
gallery = record {
  pictures =
      (record { id = 9; title = codes "a.png" }) ∷ (record { id = 10; title = codes "b.png" }) ∷ [];
  tags = codes "old" ∷ [];
  links = (record { image = 9; tag = codes "old" }) ∷ [];
  favorites = (record { user = 4; image = 10 }) ∷ [];
  messages = [];
  edits = [];
}

abbrev new_tags : List Bytes
new_tags = codes " red  cat " ∷ codes "dog" ∷ codes "red cat" ∷ []

path_9 : path_id (codes "9") ≡ some 9
unfolding path_id parse_int
path_9 = refl

pictured_9 : has_picture 9 gallery.pictures ≡ true
unfolding has_picture
pictured_9 = refl

clean_new_tags : all_clean lower new_tags ≡ true
unfolding all_clean clean_tag is_bad_tag join_fields any_byte contains_control runes join
clean_new_tags = refl

good_words : not (is_bad_comment (trim_space (codes " nice "))) ≡ true
unfolding is_bad_comment trim_space contains_control runes
good_words = refl

abbrev context : ContextBody
context = record { tags = some new_tags; comment = some (codes " nice ") }

context_update_replaces_example :
    let (status, g') =
      context_update lower (database committed) gallery 4 true (codes "9") (some context) in
    (status ≡ 200)
    × ((i : ℕ) (x : Bytes)
        → has_link i x g'.links
          ≡ (if i == 9 then is_named lower x new_tags else has_link i x gallery.links))
    × (g'.messages ≡ [] ++ new_message 1 4 9 (trim_space (codes " nice ")) none ∷ [])
context_update_replaces_example =
    context_update_replaces lower (database committed) gallery 4 9 (codes "9") new_tags
      (some (codes " nice ")) database-Works path_9 pictured_9 refl clean_new_tags good_words

favorites_lem_example :
    let (added, with_it) = favorite_image (database committed) gallery 4 (codes "9") in
    let (removed, without) = unfavorite_image (database committed) gallery 4 (codes "9") in
    (added ≡ 200)
    × (removed ≡ 200)
    × ((u i : ℕ)
        → is_favorite u i with_it.favorites
          ≡ (is_favorite u i gallery.favorites || ((u == 4) && (i == 9))))
    × ((u i : ℕ)
        → is_favorite u i without.favorites
          ≡ (is_favorite u i gallery.favorites && not ((u == 4) && (i == 9))))
favorites_lem_example =
    favorites_lem (database committed) gallery 4 9 (codes "9") refl refl path_9 pictured_9

old_good : is_bad_tag (codes "old") ≡ false
unfolding is_bad_tag any_byte contains_control runes
old_good = refl

gallery-IsTidy : IsTidy gallery
unfolding has_link has_name has_picture count_links is_favorite count_favorites
gallery-IsTidy = record {
  comments = tt;
  names = λ i x h.
      ap is_bad_tag (sym ((bytes_eq_iff (codes "old") x).0 (ground (arith, h)))) ∙ old_good;
  known = λ i x h. ground (arith, h);
  linked = λ i x h. ground (arith, h);
  once = λ i x. ground arith;
  liked = λ u i h. ground (arith, h);
  liked_once = λ u i. ground arith;
}

serve-IsTidy_example :
    IsTidy (serve lower (database undone) gallery 4 true (new_context (codes "9") (some context))).1
serve-IsTidy_example =
    serve-IsTidy lower (database undone) gallery 4 true (new_context (codes "9") (some context))
      (λ names name h. h) gallery-IsTidy

serve_atomic_example :
    let (status, g') =
      serve lower (database undone) gallery 4 true (new_context (codes "9") (some context)) in
    (status ≡ 200) ⊎ (g' ≡ gallery)
serve_atomic_example =
    serve_atomic lower (database undone) gallery 4 true (new_context (codes "9") (some context))
      (λ e. cc) refl refl
