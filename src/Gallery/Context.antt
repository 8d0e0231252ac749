-- ===== src/Gallery/Context.antt =====
-- `contextUpdate`, go_api/cmd/api/handlers.go: the tags of an image are replaced and a comment is
-- added, in one transaction.
use imageboard.Base.{
  ℕ, ◌∷◌, [], ◌++◌, List, Bool, true, false, ◌&&◌, ◌||◌, not, Option, none, some, ltb, ◌==◌,
  if◌then◌else◌, length,
}
use imageboard.Text.{Bytes, bytes_eq, trim_space}
use imageboard.Search.{clean_tag}
use imageboard.Comments.{is_bad_comment, new_message}
use imageboard.Accounts.{is_none, Commit, committed, undone, reply_lost}
use imageboard.Gallery.{Gallery, Database, TagLink, has_picture, path_id, on_image}

pub record ContextBody : Type 0 where
  pub tags : Option (List Bytes)
  pub comment : Option Bytes

-- A step of the transaction: it goes on, or replies with a status and is rolled back.
pub data Try {ℓ} (A : Type ℓ) : Type ℓ where
  stop : ℕ → Try A
  go : A → Try A

infixl 5 ◌>>=◌ ◌>>◌
unfoldable pub ◌>>=◌ {ℓ κ} : {A : Type ℓ} {B : Type κ} → Try A → (A → Try B) → Try B
stop status >>= f = stop status
go a >>= f = f a

abbrev pub ◌>>◌ {κ} : {B : Type κ} → Try (Unit {0}) → Try B → Try B
t >> u = t >>= (λ _. u)

unfoldable pub stop_if : Bool → ℕ → Try (Unit {0})
stop_if true status = stop status
stop_if false status = go tt

unfoldable pub has_name : Bytes → List Bytes → Bool
has_name name [] = false
has_name name (n ∷ rest) = bytes_eq n name || has_name name rest

-- The map `names` as the list of its keys.
abbrev pub add_name : Bytes → List Bytes → List Bytes
add_name name names = if has_name name names then names else names ++ name ∷ []

-- The loop over the tags of the body.
unfoldable pub clean_names : (Bytes → Bytes) → List Bytes → List Bytes → Try (List Bytes)
clean_names lower names [] = go names
clean_names lower names (tag ∷ tags) = elim (clean_tag lower tag) [
  | none ↦ stop 422
  | some clean ↦ clean_names lower (add_name clean names) tags
]

unfoldable pub unlink : ℕ → List TagLink → List TagLink
unlink image [] = []
unlink image (l ∷ rest) =
    let kept = unlink image rest in if l.image == image then kept else l ∷ kept

unfoldable pub has_link : ℕ → Bytes → List TagLink → Bool
has_link image tag [] = false
has_link image tag (l ∷ rest) =
    ((l.image == image) && bytes_eq l.tag tag) || has_link image tag rest

-- The two statements for a name. `unique_tag_image` forbids a second link.
unfoldable pub link_tag : Database → ℕ → Bytes → Gallery → Try Gallery
unfolding stop_if ◌>>=◌
link_tag db image name g = do
  stop_if (db.tag_fails name) 500
  stop_if (db.link_fails name || has_link image name g.links) 500
  go (record g {
    tags = add_name name g.tags;
    links = g.links ++ (record { image = image; tag = name }) ∷ [];
  })

-- The loop over the map.
unfoldable pub link_tags : Database → ℕ → List Bytes → Gallery → Try Gallery
unfolding ◌>>=◌
link_tags db image [] g = go g
link_tags db image (name ∷ names) g = link_tag db image name g >>= link_tags db image names

unfoldable pub replace_tags :
    (Bytes → Bytes) → Database → Bool → ℕ → Option (List Bytes) → Gallery → Try Gallery
unfolding stop_if ◌>>=◌ clean_names link_tags unlink
replace_tags lower db admin image none g = go g
replace_tags lower db admin image (some tags) g = do
  stop_if (not admin) 403
  stop_if (ltb 50 (length tags)) 422
  names ← clean_names lower [] tags
  stop_if db.delete_fails 500
  link_tags db image (db.order names) (record g { links = unlink image g.links })

unfoldable pub add_context_comment : Database → ℕ → ℕ → Option Bytes → Gallery → Try Gallery
unfolding stop_if ◌>>=◌
add_context_comment db user image none g = go g
add_context_comment db user image (some comment) g = do
  stop_if (is_bad_comment (trim_space comment)) 422
  stop_if db.comment_fails 500
  go (record g {
    messages = g.messages ++ new_message db.new_id user image (trim_space comment) none ∷ [];
  })

abbrev pub nothing_supplied : ContextBody → Bool
nothing_supplied b = is_none b.tags && is_none b.comment

-- The transaction up to its commit.
unfoldable pub context_tx :
    (Bytes → Bytes) → Database → Gallery → ℕ → Bool → ℕ → ContextBody → Try Gallery
unfolding stop_if ◌>>=◌ replace_tags add_context_comment
context_tx lower db g user admin image b = do
  stop_if db.begin_fails 500
  stop_if db.find_fails 500
  stop_if (not (has_picture image g.pictures)) 404
  g' ← replace_tags lower db admin image b.tags g
  add_context_comment db user image b.comment g'

abbrev pub commit_context : Database → Commit → Gallery → Gallery → ℕ × Gallery
commit_context db committed old new = (if db.reload_fails then 500 else 200, new)
commit_context db undone old new = (500, old)
commit_context db reply_lost old new = (500, new)

abbrev pub conclude_context : Database → Gallery → Try Gallery → ℕ × Gallery
conclude_context db old (stop status) = (status, old)
conclude_context db old (go new) = commit_context db db.commit_ends old new

unfoldable pub update_context :
    (Bytes → Bytes) → Database → Gallery → ℕ → Bool → ℕ → Option ContextBody → ℕ × Gallery
unfolding context_tx
update_context lower db g user admin image none = (422, g)
update_context lower db g user admin image (some b) =
    if nothing_supplied b
    then (422, g)
    else conclude_context db g (context_tx lower db g user admin image b)

-- `contextUpdate`: the status of the reply and the tables.
unfoldable pub context_update :
    (Bytes → Bytes) → Database → Gallery → ℕ → Bool → Bytes → Option ContextBody → ℕ × Gallery
unfolding update_context
context_update lower db g user admin id_text decoded =
    on_image g (path_id id_text) (λ image. update_context lower db g user admin image decoded)
