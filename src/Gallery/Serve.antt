-- ===== src/Gallery/Serve.antt =====
-- The requests that write to the gallery, go_api/cmd/api/main.go `routes`.
use imageboard.Base.{ℕ, map, Bool, Option, if◌then◌else◌}
use imageboard.Text.{Bytes}
use imageboard.Comments.{Board, Faults, CommentBody, add_comment}
use imageboard.Gallery.{Gallery, Database, favorite_image, unfavorite_image, update_image}
use imageboard.Gallery.Context.{ContextBody, context_update}

pub data Request : Type 0 where
  add_favorite remove_favorite : Bytes → Request
  new_title : Bytes → Option Bytes → Request
  new_context : Bytes → Option ContextBody → Request
  new_comment : Faults → Bytes → Option CommentBody → Request

abbrev pub board_of : Gallery → Board
board_of g = record { images = map (λ p. p.id) g.pictures; messages = g.messages }

abbrev with_board : Gallery → ℕ × Board → ℕ × Gallery
with_board g (status, b) = (status, record g { messages = b.messages })

-- The status of the reply and the tables. `withAdmin` stands before `updateImage`.
unfoldable pub serve : (Bytes → Bytes) → Database → Gallery → ℕ → Bool → Request → ℕ × Gallery
serve lower db g user admin (add_favorite id) = favorite_image db g user id
serve lower db g user admin (remove_favorite id) = unfavorite_image db g user id
serve lower db g user admin (new_title id name) =
    if admin then update_image db g id name else (403, g)
serve lower db g user admin (new_context id body) = context_update lower db g user admin id body
serve lower db g user admin (new_comment faults id body) =
    with_board g (add_comment faults (board_of g) user db.new_id id body)
