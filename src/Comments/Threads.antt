-- ===== src/Comments/Threads.antt =====
-- Threads of comments and their texts, go_api/cmd/api/handlers.go `addComment`.
use imageboard.Base.{
  ℕ, zero, suc, ◌≡◌, ◌∷◌, [], ◌++◌, List, true, false, ◌&&◌, ◌||◌, not, Option, none, some, arith,
  Bool-cases, Option-cases, inl, inr, ◌==◌,
}
use imageboard.Text.{Bytes, All, All-mono, trim_space, parse_int, positive, int32_bound}
use imageboard.Comments.{
  Message, Board, Faults, CommentBody, find_message, find_in, has_image, is_bad_comment,
  check_thread, check_parent, check_reply, new_message, post_comment, comment_on, add_comment,
}

-- A comment on `image` with this `reply_to` has at most `n` ancestors, all of them on the image.
pub data Chain (messages : List Message) (image : ℕ) : ℕ → Option ℕ → Type 0 where
  ends : (n : ℕ) → Chain messages image n none
  answers :
      (n id : ℕ) (m : Message)
      → find_in image id messages ≡ some m
      → Chain messages image n m.reply_to
      → Chain messages image (suc n) (some id)

-- Of a comment: its thread has at most 8 comments above it, and its text is of 1 to 8192 bytes with
-- no control characters.
pub record IsSound (messages : List Message) (m : Message) : Type 0 where
  pub thread : Chain messages m.image 8 m.reply_to
  pub text : is_bad_comment m.text ≡ false

find_in-append :
    (image id : ℕ) (messages more : List Message) {m : Message}
    → find_in image id messages ≡ some m
    → find_in image id (messages ++ more) ≡ some m
unfolding find_in
find_in-append image id [] more h = absurd (ground arith)
find_in-append image id (x ∷ messages) more h =
    elim (Bool-cases ((x.id == id) && (x.image == image))) [
      | inl q ↦ rw (q, find_in) (ground (arith, h, q))
      | inr q ↦ rw (q, find_in) (find_in-append image id messages more (ground (arith, h, q)))
    ]

find_in-find_message :
    (image id : ℕ) (messages : List Message) {m : Message}
    → find_message id messages ≡ some m
    → (m.image == image) ≡ true
    → find_in image id messages ≡ some m
unfolding find_in find_message
find_in-find_message image id [] h k = absurd (ground arith)
find_in-find_message image id (x ∷ messages) {m} h k = elim (Bool-cases (x.id == id)) [
  | inl q ↦ ground (arith, h, k, q)
  | inr q ↦ rw (q, find_in) (find_in-find_message image id messages (ground (arith, h, q)) k)
]

Chain-append :
    (messages more : List Message) (image n : ℕ) (r : Option ℕ)
    → Chain messages image n r
    → Chain (messages ++ more) image n r
Chain-append messages more image _ _ (ends n) = ends n
Chain-append messages more image _ _ (answers n id m f c) =
    answers n id m (find_in-append image id messages more f)
      (Chain-append messages more image n m.reply_to c)

check_thread-Chain :
    (faults : Faults) (n image : ℕ) (r : Option ℕ) (messages : List Message)
    → check_thread faults n image r messages ≡ true
    → Chain messages image n r
unfolding check_thread
check_thread-Chain faults n image none messages h = ends n
check_thread-Chain faults zero image (some id) messages h = absurd (ground arith)
check_thread-Chain faults (suc n) image (some id) messages h =
    elim (Bool-cases (faults.ancestor n)) [
      | inl q ↦ absurd (ground (arith, h, q))
      | inr q ↦ elim (Option-cases (find_in image id messages)) [
        | inl f ↦ absurd (ground (arith, h, q, f))
        | inr (m, f) ↦
            answers n id m f
              (check_thread-Chain faults n image m.reply_to messages (ground (arith, h, q, f)))
      ]
    ]

check_reply-Chain :
    (faults : Faults) (image : ℕ) (r : Option ℕ) (messages : List Message)
    → check_reply faults image r messages ≡ true
    → Chain messages image 8 r
unfolding check_reply check_parent
check_reply-Chain faults image none messages h = ends 8
check_reply-Chain faults image (some id) messages h =
    elim (Option-cases (find_message id messages)) [
      | inl f ↦ absurd (ground (arith, h, f))
      | inr (m, f) ↦
          answers 7 id m (find_in-find_message image id messages f (ground (arith, h, f)))
            (check_thread-Chain faults 7 image m.reply_to messages (ground (arith, h, f)))
    ]

IsSound-append :
    (messages more some_messages : List Message)
    → All (IsSound messages) some_messages
    → All (IsSound (messages ++ more)) some_messages
IsSound-append messages more some_messages h =
    All-mono (IsSound messages) (IsSound (messages ++ more)) some_messages
      (λ m s. record {
        thread = Chain-append messages more m.image 8 m.reply_to s.thread;
        text = s.text;
      })
      h

All-snoc :
    (P : Message → Type 0) (messages : List Message) (m : Message)
    → All P messages
    → P m
    → All P (messages ++ m ∷ [])
All-snoc P [] m h p = (p, tt)
All-snoc P (x ∷ messages) m h p = (h.0, All-snoc P messages m h.1 p)

pub IsSound-snoc :
    (messages : List Message) (m : Message)
    → All (IsSound messages) messages
    → IsSound messages m
    → All (IsSound (messages ++ m ∷ [])) (messages ++ m ∷ [])
IsSound-snoc messages m h s =
    All-snoc (IsSound (messages ++ m ∷ [])) messages m (IsSound-append messages (m ∷ []) messages h)
      record {
        thread = Chain-append messages (m ∷ []) m.image 8 m.reply_to s.thread;
        text = s.text;
      }

post_comment-IsSound :
    (faults : Faults) (board : Board) (user new_id image : ℕ) (b : CommentBody)
    → All (IsSound board.messages) board.messages
    → let messages = (post_comment faults board user new_id image b).1.messages in
      All (IsSound messages) messages
unfolding post_comment
post_comment-IsSound faults board user new_id image b h =
    elim (Bool-cases (
      is_bad_comment (trim_space b.text)
      || not (check_reply faults image b.reply_to board.messages))) [
        | inl q ↦ rw q h
        | inr q ↦ rw q (elim (Bool-cases faults.insert) [
          | inl p ↦ rw p h
          | inr p ↦ rw p (elim (Bool-cases (has_image image board.images)) [
            | inr o ↦ rw o h
            | inl o ↦ rw o (
                IsSound-snoc board.messages
                  (new_message new_id user image (trim_space b.text) b.reply_to) h
                  record {
                    thread =
                        check_reply-Chain faults image b.reply_to board.messages
                          (ground (arith, q));
                    text = ground (arith, q);
                  })
          ])
        ])
      ]

comment_on-IsSound :
    (faults : Faults) (board : Board) (user new_id : ℕ) (image : Option ℕ)
    (decoded : Option CommentBody)
    → All (IsSound board.messages) board.messages
    → let messages = (comment_on faults board user new_id image decoded).1.messages in
      All (IsSound messages) messages
unfolding comment_on
comment_on-IsSound faults board user new_id none decoded h = h
comment_on-IsSound faults board user new_id (some image) none h = h
comment_on-IsSound faults board user new_id (some image) (some b) h =
    post_comment-IsSound faults board user new_id image b h

-- Comments stay sound, whatever fails: from a table in which each comment has at most 8 others above
-- it, all on its image, and a text of 1 to 8192 bytes with no control characters, every request to
-- comment leads to such a table.
pub add_comment-IsSound :
    (faults : Faults) (board : Board) (user new_id : ℕ) (id_text : Bytes)
    (decoded : Option CommentBody)
    → All (IsSound board.messages) board.messages
    → let messages = (add_comment faults board user new_id id_text decoded).1.messages in
      All (IsSound messages) messages
unfolding add_comment
add_comment-IsSound faults board user new_id id_text decoded h =
    comment_on-IsSound faults board user new_id (positive (parse_int int32_bound id_text)) decoded h
