-- ===== src/Gallery/Invariant.antt =====
-- Every request that writes to the gallery, go_api/cmd/api/handlers.go.
use imageboard.Base.{
  ℕ, ◌≡◌, refl, ap, ◌∙◌, sym, ◌∷◌, [], List, Bool, true, false, not, Option, none, some, ltb,
  if◌then◌else◌, length, arith, Bool-cases, Option-cases, inl, inr,
}
use imageboard.Text.{join_fields, bytes_eq_refl, Bytes, All, bytes_eq, bytes_eq_iff, trim_space}
use imageboard.Search.{clean_tag, is_bad_tag}
use imageboard.Accounts.{Commit, committed, undone, reply_lost}
use imageboard.Comments.{Message, is_bad_comment, new_message}
use imageboard.Comments.Threads.{IsSound, ends, IsSound-snoc, add_comment-IsSound}
use imageboard.Gallery.{
  Gallery, Database, has_picture, path_id, on_image, favorite, unfavorite, retitle_decoded,
  favorite_image, unfavorite_image, update_image,
}
use imageboard.Gallery.Context.{
  ContextBody, Try, has_name, add_name, clean_names, unlink, link_tags, replace_tags,
  add_context_comment, context_tx, update_context, context_update, conclude_context, commit_context,
  nothing_supplied,
}
use imageboard.Gallery.Ensures.{Ensures, stopped, gone, Ensures-bind, Ensures-stop_if}
use imageboard.Gallery.Names.{has_name-add_name}
use imageboard.Gallery.Tidy.{IsTidy, GivesKeys, link_tag-IsTidy, unlink-IsTidy}
use imageboard.Gallery.Favorites.{favorite-IsTidy, unfavorite-IsTidy, retitle_decoded-IsTidy}
use imageboard.Gallery.Serve.{
  Request, add_favorite, remove_favorite, new_title, new_context, new_comment, board_of, serve,
}

some_unless :
    (b : Bool) (v clean : Bytes)
    → (if b then none else some v) ≡ some clean
    → (b ≡ false) × (v ≡ clean)
some_unless true v clean h = absurd (ground (arith, h))
some_unless false v clean h = (refl, ground (arith, h))

clean_tag_good :
    (lower : Bytes → Bytes) (tag clean : Bytes)
    → clean_tag lower tag ≡ some clean
    → is_bad_tag clean ≡ false
unfolding clean_tag
clean_tag_good lower tag clean h =
    let (good, e) =
      some_unless (is_bad_tag (lower (join_fields tag))) (lower (join_fields tag)) clean h in
    ap is_bad_tag (sym e) ∙ good

-- All names of the list can be those of tags.
abbrev AreGood : List Bytes → Type 0
AreGood names = (name : Bytes) → has_name name names ≡ true → is_bad_tag name ≡ false

clean_names-AreGood :
    (lower : Bytes → Bytes) (names tags : List Bytes)
    → AreGood names
    → Ensures AreGood (clean_names lower names tags)
unfolding clean_names
clean_names-AreGood lower names [] h = gone h
clean_names-AreGood lower names (tag ∷ tags) h = elim (Option-cases (clean_tag lower tag)) [
  | inl q ↦ rw (q, clean_names) (stopped 422)
  | inr (clean, q) ↦
      rw (q, clean_names)
        (clean_names-AreGood lower (add_name clean names) tags (λ name k.
          elim (Bool-cases (has_name name names)) [
            | inl old ↦ h name old
            | inr new ↦
                let e : bytes_eq clean name ≡ true =
                  ground (arith, k, new, has_name-add_name name clean names) in
                ap is_bad_tag (sym ((bytes_eq_iff clean name).0 e))
                ∙ clean_tag_good lower tag clean q
          ]))
]

-- A tidy gallery with the same pictures.
abbrev TidyLike : Gallery → Gallery → Type 0
TidyLike g g' = IsTidy g' × (g'.pictures ≡ g.pictures)

link_tags-IsTidy :
    (db : Database) (image : ℕ) (names : List Bytes) (g : Gallery)
    → IsTidy g
    → has_picture image g.pictures ≡ true
    → AreGood names
    → Ensures IsTidy (link_tags db image names g)
unfolding link_tags has_name
link_tags-IsTidy db image [] g t pic good = gone t
link_tags-IsTidy db image (name ∷ names) g t pic good =
    Ensures-bind (link_tags db image names)
      (link_tag-IsTidy db image name g t pic (good name (rw (bytes_eq_refl name) refl)))
      (λ g' (t', same).
        link_tags-IsTidy db image names g' t' (ap (has_picture image) same ∙ pic)
          (λ n h. good n (ground (arith, h))))

replace_tags-IsTidy :
    (lower : Bytes → Bytes) (db : Database) (admin : Bool) (image : ℕ) (tags : Option (List Bytes))
    (g : Gallery)
    → IsTidy g
    → GivesKeys db
    → has_picture image g.pictures ≡ true
    → Ensures IsTidy (replace_tags lower db admin image tags g)
unfolding replace_tags has_name
replace_tags-IsTidy lower db admin image none g t keys pic = gone t
replace_tags-IsTidy lower db admin image (some tags) g t keys pic =
    Ensures-stop_if (not admin) 403 _ (λ _. Ensures-stop_if (ltb 50 (length tags)) 422 _ (λ _.
      Ensures-bind _ (clean_names-AreGood lower [] tags (λ name h. absurd (ground (arith, h))))
        (λ names good. Ensures-stop_if db.delete_fails 500 _ (λ _.
          link_tags-IsTidy db image (db.order names) (record g { links = unlink image g.links })
            (unlink-IsTidy image g t) pic (λ name h. good name (keys names name h))))))

add_context_comment-IsTidy :
    (db : Database) (user image : ℕ) (comment : Option Bytes) (g : Gallery)
    → IsTidy g
    → Ensures IsTidy (add_context_comment db user image comment g)
unfolding add_context_comment
add_context_comment-IsTidy db user image none g t = gone t
add_context_comment-IsTidy db user image (some comment) g t =
    Ensures-stop_if (is_bad_comment (trim_space comment)) 422 _ (λ good.
      Ensures-stop_if db.comment_fails 500 _ (λ _. gone record {
        comments =
            IsSound-snoc g.messages (new_message db.new_id user image (trim_space comment) none)
              t.comments record { thread = ends 8; text = good };
        names = t.names;
        known = t.known;
        linked = t.linked;
        once = t.once;
        liked = t.liked;
        liked_once = t.liked_once;
      }))

context_tx-IsTidy :
    (lower : Bytes → Bytes) (db : Database) (g : Gallery) (user : ℕ) (admin : Bool) (image : ℕ)
    (b : ContextBody)
    → IsTidy g
    → GivesKeys db
    → Ensures IsTidy (context_tx lower db g user admin image b)
unfolding context_tx
context_tx-IsTidy lower db g user admin image b t keys = Ensures-stop_if db.begin_fails 500 _ (λ _.
    Ensures-stop_if db.find_fails 500 _ (λ _.
      Ensures-stop_if (not (has_picture image g.pictures)) 404 _ (λ pic.
        Ensures-bind _
          (replace_tags-IsTidy lower db admin image b.tags g t keys (ground (arith, pic)))
          (λ g' t'. add_context_comment-IsTidy db user image b.comment g' t'))))

commit_context_keeps :
    (P : Gallery → Type 0) (db : Database) (c : Commit) (old new : Gallery)
    → P old
    → P new
    → P (commit_context db c old new).1
commit_context_keeps P db committed old new o n = n
commit_context_keeps P db undone old new o n = o
commit_context_keeps P db reply_lost old new o n = n

conclude_context-IsTidy :
    (db : Database) (g : Gallery) (m : Try Gallery)
    → IsTidy g
    → Ensures IsTidy m
    → IsTidy (conclude_context db g m).1
conclude_context-IsTidy db g _ t (stopped status) = t
conclude_context-IsTidy db g _ t (gone {a} new) =
    commit_context_keeps IsTidy db db.commit_ends g a t new

update_context-IsTidy :
    (lower : Bytes → Bytes) (db : Database) (g : Gallery) (user : ℕ) (admin : Bool) (image : ℕ)
    (b : Option ContextBody)
    → IsTidy g
    → GivesKeys db
    → IsTidy (update_context lower db g user admin image b).1
unfolding update_context
update_context-IsTidy lower db g user admin image none t keys = t
update_context-IsTidy lower db g user admin image (some b) t keys =
    elim (Bool-cases (nothing_supplied b)) [
      | inl q ↦ rw (q, update_context) t
      | inr q ↦
          rw (q, update_context)
            (conclude_context-IsTidy db g (context_tx lower db g user admin image b) t
              (context_tx-IsTidy lower db g user admin image b t keys))
    ]

board-IsTidy :
    (g : Gallery) (messages : List Message)
    → IsTidy g
    → All (IsSound messages) messages
    → IsTidy (record g { messages = messages })
board-IsTidy g messages t h = record {
  comments = h;
  names = t.names;
  known = t.known;
  linked = t.linked;
  once = t.once;
  liked = t.liked;
  liked_once = t.liked_once;
}

on_image-IsTidy :
    (g : Gallery) (id : Option ℕ) (f : ℕ → ℕ × Gallery)
    → IsTidy g
    → ((i : ℕ) → IsTidy (f i).1)
    → IsTidy (on_image g id f).1
on_image-IsTidy g none f t h = t
on_image-IsTidy g (some i) f t h = h i

-- The gallery stays tidy under every request that writes to it, whatever fails, if the order of a
-- map's keys has nothing but keys: a tag and a favourite are there once, of an image that exists, a
-- tag's name is clean and in the table of tags, and comments are sound.
pub serve-IsTidy :
    (lower : Bytes → Bytes) (db : Database) (g : Gallery) (user : ℕ) (admin : Bool)
    (request : Request)
    → GivesKeys db
    → IsTidy g
    → IsTidy (serve lower db g user admin request).1
unfolding serve favorite_image unfavorite_image update_image context_update
serve-IsTidy lower db g user admin (add_favorite id) keys t =
    on_image-IsTidy g (path_id id) (favorite db g user) t (λ i. favorite-IsTidy db g user i t)
serve-IsTidy lower db g user admin (remove_favorite id) keys t =
    on_image-IsTidy g (path_id id) (unfavorite db g user) t (λ i. unfavorite-IsTidy db g user i t)
serve-IsTidy lower db g user false (new_title id name) keys t = t
serve-IsTidy lower db g user true (new_title id name) keys t =
    on_image-IsTidy g (path_id id) (λ i. retitle_decoded db g i name) t
      (λ i. retitle_decoded-IsTidy db g i name t)
serve-IsTidy lower db g user admin (new_context id body) keys t =
    on_image-IsTidy g (path_id id) (λ i. update_context lower db g user admin i body) t
      (λ i. update_context-IsTidy lower db g user admin i body t keys)
serve-IsTidy lower db g user admin (new_comment faults id body) keys t =
    board-IsTidy g _ t (add_comment-IsSound faults (board_of g) user db.new_id id body t.comments)
