-- ===== src/Comments/Tests.antt =====
-- Comments on one image, and the theorem at them.
use imageboard.Base.{◌≡◌, refl, ◌++◌, ◌∷◌, [], false, none, some}
use imageboard.Text.{All, codes, trim_space, parse_int, runes}
use imageboard.Password.{contains_control}
use imageboard.Comments.{
  Message, Board, Faults, CommentBody, new_message, add_comment, check_reply, find_message, find_in,
  has_image, is_bad_comment,
}
use imageboard.Comments.Threads.{IsSound, ends, answers, add_comment-IsSound}

abbrev no_faults : Faults
no_faults = record { parent = false; ancestor = λ _. false; insert = false; reload = false }

-- A comment, and an answer to it.
abbrev question : Message
question = new_message 1 4 9 (codes "who?") none

abbrev answer : Message
answer = new_message 2 5 9 (codes "me") (some 1)

abbrev board : Board
board = record { images = 9 ∷ []; messages = question ∷ answer ∷ [] }

abbrev reply : CommentBody
reply = record { text = codes " really? "; reply_to = some 2 }

found : find_in 9 1 board.messages ≡ some question
unfolding find_in
found = refl

-- A reply to the answer goes in, trimmed, and one on another image does not.
reply_accepted : add_comment no_faults board 4 3 (codes "9") (some reply) ≡ (
  200,
  record board { messages = board.messages ++ new_message 3 4 9 (codes "really?") (some 2) ∷ [] },
)
unfolding add_comment parse_int is_bad_comment trim_space contains_control runes check_reply
    find_message find_in has_image
reply_accepted = refl

add_comment-IsSound_example :
    let messages = (add_comment no_faults board 4 3 (codes "9") (some reply)).1.messages in
    All (IsSound messages) messages
unfolding is_bad_comment contains_control runes
add_comment-IsSound_example = add_comment-IsSound no_faults board 4 3 (codes "9") (some reply) (
  record { thread = ends 8; text = refl },
  (record { thread = answers 7 1 question found (ends 7); text = refl }, tt),
)
