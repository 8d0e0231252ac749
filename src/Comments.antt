-- ===== src/Comments.antt =====
-- Comments on images, go_api/cmd/api/handlers.go: `addComment`. The table message is in the order
-- of insertion, and an id is larger than those before it.
pub mod Threads
mod Tests
use imageboard.Base.{
  ℕ, zero, suc, ◌∷◌, [], ◌++◌, List, Bool, true, false, ◌&&◌, ◌||◌, not, Option, none, some, ltb,
  ◌==◌, if◌then◌else◌, length,
}
use imageboard.Text.{Bytes, is_nil, trim_space, parse_int, positive, int32_bound}
use imageboard.Password.{contains_control}

pub record Message : Type 0 where
  pub id : ℕ
  pub from_user : ℕ
  pub image : ℕ
  pub text : Bytes
  pub reply_to : Option ℕ

-- The ids of the images, and the comments.
pub record Board : Type 0 where
  pub images : List ℕ
  pub messages : List Message

-- Which statements the database fails: the query of the parent, that of an ancestor (by the
-- steps that are left), the insertion, and the query of the image for the reply.
pub record Faults : Type 0 where
  pub parent : Bool
  pub ancestor : ℕ → Bool
  pub insert : Bool
  pub reload : Bool

pub record CommentBody : Type 0 where
  pub text : Bytes
  pub reply_to : Option ℕ

unfoldable pub find_message : ℕ → List Message → Option Message
find_message id [] = none
find_message id (m ∷ rest) = if m.id == id then some m else find_message id rest

-- `WHERE id = $1 AND image = $2`
unfoldable pub find_in : ℕ → ℕ → List Message → Option Message
find_in image id [] = none
find_in image id (m ∷ rest) =
    if (m.id == id) && (m.image == image) then some m else find_in image id rest

unfoldable pub has_image : ℕ → List ℕ → Bool
has_image id [] = false
has_image id (i ∷ rest) = (i == id) || has_image id rest

abbrev pub max_comment_bytes : ℕ
max_comment_bytes = 8192

unfoldable pub is_bad_comment : Bytes → Bool
is_bad_comment text = is_nil text || ltb max_comment_bytes (length text) || contains_control text

-- The loop over the ancestors, of which `left` more may follow: does it end at a comment that
-- answers none?
unfoldable pub check_thread : Faults → ℕ → ℕ → Option ℕ → List Message → Bool
check_thread faults left image none messages = true
check_thread faults zero image (some id) messages = false
check_thread faults (suc left) image (some id) messages =
    if faults.ancestor left then false else elim (find_in image id messages) [
      | none ↦ false
      | some m ↦ check_thread faults left image m.reply_to messages
    ]

-- The test of the parent that is found: it is of the same image, and `depth` passes 7 ancestors.
unfoldable pub check_parent : Faults → ℕ → Option Message → List Message → Bool
unfolding check_thread
check_parent faults image none messages = false
check_parent faults image (some m) messages =
    (m.image == image) && check_thread faults 7 image m.reply_to messages

unfoldable pub check_reply : Faults → ℕ → Option ℕ → List Message → Bool
unfolding check_parent
check_reply faults image none messages = true
check_reply faults image (some id) messages =
    not faults.parent && check_parent faults image (find_message id messages) messages

-- The message that is inserted, with a new id.
abbrev pub new_message : ℕ → ℕ → ℕ → Bytes → Option ℕ → Message
new_message id user image text reply_to = record {
  id = id;
  from_user = user;
  image = image;
  text = text;
  reply_to = reply_to;
}

-- `addComment` once the body is decoded.
unfoldable pub post_comment : Faults → Board → ℕ → ℕ → ℕ → CommentBody → ℕ × Board
post_comment faults board user new_id image b =
    if is_bad_comment (trim_space b.text)
      || not (check_reply faults image b.reply_to board.messages)
    then (422, board)
    else if faults.insert
    then (500, board)
    else if not (has_image image board.images)
    then (404, board)
    else (
      if faults.reload then 500 else 200,
      record board {
        messages =
            board.messages ++ new_message new_id user image (trim_space b.text) b.reply_to ∷ [];
      },
    )

-- For the image's id and the body, as far as they can be read.
unfoldable pub comment_on : Faults → Board → ℕ → ℕ → Option ℕ → Option CommentBody → ℕ × Board
unfolding post_comment
comment_on faults board user new_id none decoded = (404, board)
comment_on faults board user new_id (some image) none = (422, board)
comment_on faults board user new_id (some image) (some b) =
    post_comment faults board user new_id image b

-- `addComment`: the status of the reply and the tables. `decoded` is `none` if the body is no JSON
-- of this form, to which `decodeJSONWithLimit` has replied 422.
unfoldable pub add_comment : Faults → Board → ℕ → ℕ → Bytes → Option CommentBody → ℕ × Board
unfolding comment_on
add_comment faults board user new_id id_text decoded =
    comment_on faults board user new_id (positive (parse_int int32_bound id_text)) decoded
