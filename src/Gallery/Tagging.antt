-- ===== src/Gallery/Tagging.antt =====
-- The rows of tag_image behind the loop of `contextUpdate`, go_api/cmd/api/handlers.go.
use imageboard.Base.{
  ℕ, ◌≡◌, refl, ◌∙◌, sym, ◌∷◌, [], ◌++◌, List, true, false, ◌&&◌, ◌||◌, not, ◌==◌, arith,
  append_assoc, append-nil,
}
use imageboard.Text.{Bytes, bytes_eq_refl}
use imageboard.Gallery.Names.{count_name, Works, IsDistinct, has_name-count}
use imageboard.Gallery.{Gallery, Database, TagLink}
use imageboard.Gallery.Context.{
  go, ◌>>=◌, stop_if, has_name, add_name, unlink, has_link, link_tag, link_tags,
}

pub linked : ℕ → List Bytes → List TagLink
linked image [] = []
linked image (name ∷ names) = record { image = image; tag = name } ∷ linked image names

pub has_link-append :
    (i : ℕ) (x : Bytes) (links more : List TagLink)
    → has_link i x (links ++ more) ≡ (has_link i x links || has_link i x more)
unfolding has_link
has_link-append i x [] more = refl
has_link-append i x (l ∷ links) more = ground (arith, has_link-append i x links more)

pub has_link-linked :
    (i : ℕ) (x : Bytes) (image : ℕ) (names : List Bytes)
    → has_link i x (linked image names) ≡ ((i == image) && has_name x names)
unfolding has_link has_name linked
has_link-linked i x image [] = ground arith
has_link-linked i x image (name ∷ names) = ground (arith, has_link-linked i x image names)

pub has_link-unlink :
    (i : ℕ) (x : Bytes) (image : ℕ) (links : List TagLink)
    → has_link i x (unlink image links) ≡ (not (i == image) && has_link i x links)
unfolding has_link unlink
has_link-unlink i x image [] = ground arith
has_link-unlink i x image (l ∷ links) = ground (arith, has_link-unlink i x image links)

has_name_head : (name : Bytes) (names : List Bytes) → has_name name (name ∷ names) ≡ true
unfolding has_name
has_name_head name names = rw (bytes_eq_refl name) refl

-- The statements for a name that is not linked yet.
link_tag_all :
    (db : Database) (image : ℕ) (name : Bytes) (g : Gallery)
    → Works db
    → has_link image name g.links ≡ false
    → link_tag db image name g
      ≡ go (record g {
        tags = add_name name g.tags;
        links = g.links ++ (record { image = image; tag = name }) ∷ [];
      })
unfolding link_tag stop_if ◌>>=◌
link_tag_all db image name g w free = rw (w.tags name, w.links name, free) refl

-- A name that is still to be linked, once another one is.
still_free :
    (image : ℕ) (name : Bytes) (names : List Bytes) (links : List TagLink)
    → IsDistinct (name ∷ names)
    → ((n : Bytes) → has_name n (name ∷ names) ≡ true → has_link image n links ≡ false)
    → (n : Bytes) → has_name n names ≡ true
    → has_link image n (links ++ (record { image = image; tag = name }) ∷ []) ≡ false
unfolding has_name has_link count_name
still_free image name names links d free n h = ground (
  arith,
  has_link-append image n links ((record { image = image; tag = name }) ∷ []),
  free n (ground (arith, h)),
  d n,
  h,
  has_name-count n names,
)

-- The rows of tag_image behind the loop over the names.
pub link_tags_all :
    (db : Database) (image : ℕ) (names : List Bytes) (g : Gallery)
    → Works db
    → IsDistinct names
    → ((name : Bytes) → has_name name names ≡ true → has_link image name g.links ≡ false)
    → (g' : Gallery) × (link_tags db image names g ≡ go g')
      × (g'.links ≡ g.links ++ linked image names)
      × (g'.messages ≡ g.messages)
unfolding link_tags ◌>>=◌ linked count_name
link_tags_all db image [] g w d free = (g, refl, sym (append-nil g.links), refl)
link_tags_all db image (name ∷ names) g w d free =
    let first : has_link image name g.links ≡ false = free name (has_name_head name names) in
    let g1 : Gallery = record g {
      tags = add_name name g.tags;
      links = g.links ++ (record { image = image; tag = name }) ∷ [];
    } in
    let (g', e, l, m) =
      link_tags_all db image names g1 w (λ n. ground (arith, d n))
        (still_free image name names g.links d free) in
    (
      g',
      rw (link_tag_all db image name g w first) e,
      l ∙ append_assoc g.links ((record { image = image; tag = name }) ∷ []) (linked image names),
      m,
    )
