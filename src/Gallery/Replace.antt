-- ===== src/Gallery/Replace.antt =====
-- The tags of an image after `contextUpdate`, go_api/cmd/api/handlers.go.
use imageboard.Base.{
  ℕ, ◌≡◌, refl, ap, ◌∙◌, sym, ◌∷◌, [], ◌++◌, List, Bool, true, false, not, Option, none, some, ltb,
  ◌==◌, if◌then◌else◌, length, arith, append-nil,
}
use imageboard.Text.{Bytes, trim_space}
use imageboard.Comments.{Message, is_bad_comment, new_message}
use imageboard.Gallery.Names.{
  count_name, is_named, all_clean, Works, has_name-count, clean_names_all,
}
use imageboard.Gallery.{Gallery, Database, has_picture, path_id}
use imageboard.Gallery.Context.{
  ContextBody, go, ◌>>=◌, ◌>>◌, conclude_context, commit_context, stop_if, has_name, clean_names,
  unlink, has_link, link_tags, replace_tags, add_context_comment, context_tx, update_context,
  context_update,
}
use imageboard.Gallery.Tagging.{
  linked, has_link-append, has_link-linked, has_link-unlink, link_tags_all,
}

abbrev good_comment : Option Bytes → Bool
good_comment none = true
good_comment (some comment) = not (is_bad_comment (trim_space comment))

abbrev comment_rows : Database → ℕ → ℕ → Option Bytes → List Message
comment_rows db user image none = []
comment_rows db user image (some comment) =
    new_message db.new_id user image (trim_space comment) none ∷ []

has_name-order :
    (db : Database) (names : List Bytes) (name : Bytes)
    → Works db
    → has_name name (db.order names) ≡ has_name name names
has_name-order db names name w =
    rw (has_name-count name (db.order names), has_name-count name names, w.permutes names name) refl

replace_tags_run :
    (lower : Bytes → Bytes) (db : Database) (image : ℕ) (tags names : List Bytes) (g : Gallery)
    → Works db
    → ltb 50 (length tags) ≡ false
    → clean_names lower [] tags ≡ go names
    → replace_tags lower db true image (some tags) g
      ≡ link_tags db image (db.order names) (record g { links = unlink image g.links })
unfolding replace_tags stop_if ◌>>=◌
replace_tags_run lower db image tags names g w few e =
    let link = link_tags db image (db.order names) (record g { links = unlink image g.links }) in
    rw (few, e) (ap (λ b. stop_if b 500 >> link) w.deletes)

replace_tags_all :
    (lower : Bytes → Bytes) (db : Database) (image : ℕ) (tags : List Bytes) (g : Gallery)
    → Works db
    → ltb 50 (length tags) ≡ false
    → all_clean lower tags ≡ true
    → (g' : Gallery) × (replace_tags lower db true image (some tags) g ≡ go g')
      × ((i : ℕ) (x : Bytes)
          → has_link i x g'.links
            ≡ (if i == image then is_named lower x tags else has_link i x g.links))
      × (g'.messages ≡ g.messages)
unfolding has_name count_name
replace_tags_all lower db image tags g w few clean =
    let (names, e, d, is_in) = clean_names_all lower [] tags clean (λ name. omega arith) in
    let unlinked : Gallery = record g { links = unlink image g.links } in
    let (g', e', l, m) =
      link_tags_all db image (db.order names) unlinked w
        (λ name. rw (w.permutes names name) (d name))
        (λ name h. ground (arith, has_link-unlink image name image g.links)) in
    (
      g',
      replace_tags_run lower db image tags names g w few e ∙ e',
      λ i x.
          ap (has_link i x) l
          ∙ has_link-append i x (unlink image g.links) (linked image (db.order names))
          ∙ ground (
            arith,
            has_link-unlink i x image g.links,
            has_link-linked i x image (db.order names),
            has_name-order db names x w,
            is_in x,
          ),
      m,
    )

add_context_comment_all :
    (db : Database) (user image : ℕ) (comment : Option Bytes) (g : Gallery)
    → Works db
    → good_comment comment ≡ true
    → add_context_comment db user image comment g
      ≡ go (record g { messages = g.messages ++ comment_rows db user image comment })
unfolding add_context_comment stop_if ◌>>=◌
add_context_comment_all db user image none g w h =
    ap (λ m. go (record g { messages = m })) (sym (append-nil g.messages))
add_context_comment_all db user image (some comment) g w h =
    let good : is_bad_comment (trim_space comment) ≡ false = ground (arith, h) in
    rw good (
      ap
        (λ b.
          stop_if b 500
          >> go (record g { messages = g.messages ++ comment_rows db user image (some comment) }))
        w.comments)

-- The transaction of an administrator, step by step.
context_tx_run :
    (lower : Bytes → Bytes) (db : Database) (g g' : Gallery) (user image : ℕ) (b : ContextBody)
    → Works db
    → has_picture image g.pictures ≡ true
    → good_comment b.comment ≡ true
    → replace_tags lower db true image b.tags g ≡ go g'
    → context_tx lower db g user true image b
      ≡ go (record g' { messages = g'.messages ++ comment_rows db user image b.comment })
unfolding context_tx stop_if ◌>>=◌
context_tx_run lower db g g' user image b w pic good e =
    let rest =
      replace_tags lower db true image b.tags g >>= add_context_comment db user image b.comment in
    ap
      (λ x.
        stop_if x 500
        >> (stop_if db.find_fails 500
            >> (stop_if (not (has_picture image g.pictures)) 404 >> rest)))
      w.begins
    ∙ ap (λ x. stop_if x 500 >> (stop_if (not (has_picture image g.pictures)) 404 >> rest)) w.finds
    ∙ rw (pic, e) (add_context_comment_all db user image b.comment g' w good)

conclude_all :
    (db : Database) (g g' : Gallery) → Works db → conclude_context db g (go g') ≡ (200, g')
conclude_all db g g' w =
    ap (λ c. commit_context db c g g') w.commits ∙ ap (λ b. (if b then 500 else 200, g')) w.reloads

-- An administrator's request for an image that exists, with at most 50 tags that can all be cleaned
-- and with no comment or a good one, to a database that works: it succeeds, the image then has
-- exactly the tags that the request names, every other image has those it had, and the comment is
-- the last.
pub context_update_replaces :
    (lower : Bytes → Bytes) (db : Database) (g : Gallery) (user image : ℕ) (id_text : Bytes)
    (tags : List Bytes) (comment : Option Bytes)
    → Works db
    → path_id id_text ≡ some image
    → has_picture image g.pictures ≡ true
    → ltb 50 (length tags) ≡ false
    → all_clean lower tags ≡ true
    → good_comment comment ≡ true
    → let body : ContextBody = record { tags = some tags; comment = comment } in
      let (status, g') = context_update lower db g user true id_text (some body) in
      (status ≡ 200)
      × ((i : ℕ) (x : Bytes)
          → has_link i x g'.links
            ≡ (if i == image then is_named lower x tags else has_link i x g.links))
      × (g'.messages ≡ g.messages ++ comment_rows db user image comment)
unfolding context_update update_context
context_update_replaces lower db g user image id_text tags comment w id pic few clean good =
    let (g', e, l, m) = replace_tags_all lower db image tags g w few clean in
    let body : ContextBody = record { tags = some tags; comment = comment } in
    let new : Gallery = record g' {
      messages = g'.messages ++ comment_rows db user image comment;
    } in
    let run : context_update lower db g user true id_text (some body) ≡ (200, new) =
      rw (id, context_update)
        (ap (conclude_context db g) (context_tx_run lower db g g' user image body w pic good e)
          ∙ conclude_all db g new w) in
    (
      ap (λ r. r.0) run,
      λ i x. ap (λ r. has_link i x r.1.links) run ∙ l i x,
      ap (λ r. r.1.messages) run ∙ ap (λ ms. ms ++ comment_rows db user image comment) m,
    )
