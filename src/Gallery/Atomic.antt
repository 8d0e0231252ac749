-- ===== src/Gallery/Atomic.antt =====
-- Requests to the gallery that are refused, go_api/cmd/api/handlers.go.
use imageboard.Base.{
  ℕ, ◌≡◌, ◌≢◌, refl, ap, Bool, true, false, ◌&&◌, ◌||◌, not, Option, none, some, if◌then◌else◌,
  arith, Bool-cases, inl, inr, ◌⊎◌,
}
use imageboard.Text.{Bytes, join_fields, trim_space, positive, parse_int, int32_bound}
use imageboard.Accounts.{Commit, committed, undone, reply_lost}
use imageboard.Comments.{
  Board, Faults, CommentBody, has_image, is_bad_comment, check_reply, post_comment, comment_on,
  add_comment,
}
use imageboard.Gallery.{
  Gallery, Database, has_picture, path_id, on_image, is_favorite, favorite, unfavorite, retitle,
  retitle_decoded, favorite_image, unfavorite_image, update_image, is_bad_title,
}
use imageboard.Gallery.Context.{
  ContextBody, Try, stop, go, update_context, context_update, context_tx, conclude_context,
  commit_context, nothing_supplied,
}
use imageboard.Gallery.Serve.{
  Request, add_favorite, remove_favorite, new_title, new_context, new_comment, board_of, serve,
}

-- The reply to a request is 200, or the tables are as they were.
abbrev Settles : Gallery → ℕ × Gallery → Type 0
Settles g (status, g') = (status ≡ 200) ⊎ (g' ≡ g)

favorite-Settles : (db : Database) (g : Gallery) (user i : ℕ) → Settles g (favorite db g user i)
unfolding favorite
favorite-Settles db g user i = elim (Bool-cases db.write_fails) [
  | inl q ↦ rw (q, favorite) (inr refl)
  | inr q ↦ elim (Bool-cases (has_picture i g.pictures && not (is_favorite user i g.favorites))) [
    | inl p ↦ rw (q, p, favorite) (inl refl)
    | inr p ↦ rw (q, p, favorite) (inr refl)
  ]
]

unfavorite-Settles : (db : Database) (g : Gallery) (user i : ℕ) → Settles g (unfavorite db g user i)
unfolding unfavorite
unfavorite-Settles db g user i = elim (Bool-cases db.write_fails) [
  | inl q ↦ rw (q, unfavorite) (inr refl)
  | inr q ↦ elim (Bool-cases (is_favorite user i g.favorites)) [
    | inl p ↦ rw (q, p, unfavorite) (inl refl)
    | inr p ↦ rw (q, p, unfavorite) (inr refl)
  ]
]

retitle_decoded-Settles :
    (db : Database) (g : Gallery) (i : ℕ) (name : Option Bytes)
    → db.reload_fails ≡ false
    → Settles g (retitle_decoded db g i name)
unfolding retitle_decoded retitle
retitle_decoded-Settles db g i none h = inr refl
retitle_decoded-Settles db g i (some name) h = elim (Bool-cases (is_bad_title (join_fields name))) [
  | inl q ↦ rw q (inr refl)
  | inr q ↦ rw q (elim (Bool-cases db.write_fails) [
    | inl p ↦ rw p (inr refl)
    | inr p ↦ rw p (elim (Bool-cases (has_picture i g.pictures)) [
      | inr o ↦ rw o (inr refl)
      | inl o ↦ rw o (inl (ap (λ b. if b then 500 else 200) h))
    ])
  ])
]

commit_context-Settles :
    (db : Database) (c : Commit) (old new : Gallery)
    → c ≢ reply_lost
    → db.reload_fails ≡ false
    → Settles old (commit_context db c old new)
commit_context-Settles db committed old new k h = inl (ap (λ b. if b then 500 else 200) h)
commit_context-Settles db undone old new k h = inr refl
commit_context-Settles db reply_lost old new k h = absurd (k refl)

conclude_context-Settles :
    (db : Database) (g : Gallery) (m : Try Gallery)
    → db.commit_ends ≢ reply_lost
    → db.reload_fails ≡ false
    → Settles g (conclude_context db g m)
conclude_context-Settles db g (stop status) k h = inr refl
conclude_context-Settles db g (go new) k h = commit_context-Settles db db.commit_ends g new k h

update_context-Settles :
    (lower : Bytes → Bytes) (db : Database) (g : Gallery) (user : ℕ) (admin : Bool) (i : ℕ)
    (b : Option ContextBody)
    → db.commit_ends ≢ reply_lost
    → db.reload_fails ≡ false
    → Settles g (update_context lower db g user admin i b)
unfolding update_context
update_context-Settles lower db g user admin i none k h = inr refl
update_context-Settles lower db g user admin i (some b) k h =
    elim (Bool-cases (nothing_supplied b)) [
      | inl q ↦ rw (q, update_context) (inr refl)
      | inr q ↦
          rw (q, update_context)
            (conclude_context-Settles db g (context_tx lower db g user admin i b) k h)
    ]

comment_on_settles :
    (faults : Faults) (b : Board) (user new_id : ℕ) (i : Option ℕ) (decoded : Option CommentBody)
    → faults.reload ≡ false
    → let (status, b') = comment_on faults b user new_id i decoded in
      (status ≡ 200) ⊎ (b'.messages ≡ b.messages)
unfolding comment_on post_comment
comment_on_settles faults b user new_id none decoded h = inr refl
comment_on_settles faults b user new_id (some i) none h = inr refl
comment_on_settles faults b user new_id (some i) (some body) h =
    elim (Bool-cases (
      is_bad_comment (trim_space body.text)
      || not (check_reply faults i body.reply_to b.messages))) [
        | inl q ↦ rw q (inr refl)
        | inr q ↦ rw q (elim (Bool-cases faults.insert) [
          | inl p ↦ rw p (inr refl)
          | inr p ↦ rw p (elim (Bool-cases (has_image i b.images)) [
            | inr o ↦ rw o (inr refl)
            | inl o ↦ rw o (inl (ap (λ r. if r then 500 else 200) h))
          ])
        ])
      ]

on_image-Settles :
    (g : Gallery) (id : Option ℕ) (f : ℕ → ℕ × Gallery)
    → ((i : ℕ) → Settles g (f i))
    → Settles g (on_image g id f)
on_image-Settles g none f h = inr refl
on_image-Settles g (some i) f h = h i

-- The query for the reply to a new comment does not fail.
abbrev pub comment_reloads : Request → Bool
comment_reloads (new_comment faults id body) = not faults.reload
comment_reloads _ = true

-- A request to the gallery is answered by 200 or leaves the tables as they were, if neither the
-- reply to a commit is lost nor the query for the answer fails.
pub serve_atomic :
    (lower : Bytes → Bytes) (db : Database) (g : Gallery) (user : ℕ) (admin : Bool)
    (request : Request)
    → db.commit_ends ≢ reply_lost
    → db.reload_fails ≡ false
    → comment_reloads request ≡ true
    → let (status, g') = serve lower db g user admin request in (status ≡ 200) ⊎ (g' ≡ g)
unfolding serve favorite_image unfavorite_image update_image context_update add_comment
serve_atomic lower db g user admin (add_favorite id) k h c =
    on_image-Settles g (path_id id) (favorite db g user) (favorite-Settles db g user)
serve_atomic lower db g user admin (remove_favorite id) k h c =
    on_image-Settles g (path_id id) (unfavorite db g user) (unfavorite-Settles db g user)
serve_atomic lower db g user false (new_title id name) k h c = inr refl
serve_atomic lower db g user true (new_title id name) k h c =
    on_image-Settles g (path_id id) (λ i. retitle_decoded db g i name)
      (λ i. retitle_decoded-Settles db g i name h)
serve_atomic lower db g user admin (new_context id body) k h c =
    on_image-Settles g (path_id id) (λ i. update_context lower db g user admin i body)
      (λ i. update_context-Settles lower db g user admin i body k h)
serve_atomic lower db g user admin (new_comment faults id body) k h c =
    elim (comment_on_settles faults (board_of g) user db.new_id
      (positive (parse_int int32_bound id)) body (ground (arith, c))) [
        | inl ok ↦ inl ok
        | inr same ↦ inr (ap (λ ms. record g { messages = ms }) same)
      ]
