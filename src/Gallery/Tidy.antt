-- ===== src/Gallery/Tidy.antt =====
-- The tables of the gallery under all requests that write to them, go_api/cmd/api/handlers.go.
use imageboard.Base.{
  ℕ, ◌+◌, ◌≤◌, ◌≡◌, refl, ap, ◌∙◌, sym, ◌∷◌, [], ◌++◌, List, true, false, ◌&&◌, ◌||◌, ◌==◌, ◌⊎◌,
  arith, Bool-cases, inl, inr,
}
use imageboard.Text.{Bytes, All, bytes_eq, bytes_eq_iff}
use imageboard.Search.{is_bad_tag}
use imageboard.Comments.Threads.{IsSound}
use imageboard.Gallery.{
  Gallery, Database, TagLink, Favorite, has_picture, is_favorite_of, is_favorite,
}
use imageboard.Gallery.Context.{has_name, add_name, unlink, has_link, link_tag}
use imageboard.Gallery.Ensures.{Ensures, gone, Ensures-stop_if}
use imageboard.Gallery.Names.{one_if, has_name-add_name}
use imageboard.Gallery.Tagging.{has_link-append}

unfoldable pub count_links : ℕ → Bytes → List TagLink → ℕ
count_links image tag [] = 0
count_links image tag (l ∷ rest) =
    one_if ((l.image == image) && bytes_eq l.tag tag) + count_links image tag rest

unfoldable pub count_favorites : ℕ → ℕ → List Favorite → ℕ
count_favorites user image [] = 0
count_favorites user image (f ∷ rest) =
    one_if (is_favorite_of user image f) + count_favorites user image rest

-- A link is to a picture and a tag that exist, and is there once; its name is that of a tag. A
-- favourite is there once, of a picture that exists. Comments are sound.
pub record IsTidy (g : Gallery) : Type 0 where
  pub comments : All (IsSound g.messages) g.messages
  pub names : (i : ℕ) (x : Bytes) → has_link i x g.links ≡ true → is_bad_tag x ≡ false
  pub known : (i : ℕ) (x : Bytes) → has_link i x g.links ≡ true → has_name x g.tags ≡ true
  pub linked : (i : ℕ) (x : Bytes) → has_link i x g.links ≡ true → has_picture i g.pictures ≡ true
  pub once : (i : ℕ) (x : Bytes) → count_links i x g.links ≤ 1
  pub liked : (u i : ℕ) → is_favorite u i g.favorites ≡ true → has_picture i g.pictures ≡ true
  pub liked_once : (u i : ℕ) → count_favorites u i g.favorites ≤ 1

-- An order of a map's keys gives nothing but keys.
abbrev pub GivesKeys : Database → Type 0
GivesKeys db =
    (names : List Bytes) (name : Bytes)
    → has_name name (db.order names) ≡ true
    → has_name name names ≡ true

count_links-append :
    (i : ℕ) (x : Bytes) (links : List TagLink) (l : TagLink)
    → count_links i x (links ++ l ∷ [])
      ≡ count_links i x links + one_if ((l.image == i) && bytes_eq l.tag x)
unfolding count_links
count_links-append i x [] l = omega arith
count_links-append i x (k ∷ links) l = omega (arith, count_links-append i x links l)

count_links_none :
    (i : ℕ) (x : Bytes) (links : List TagLink)
    → has_link i x links ≡ false
    → count_links i x links ≡ 0
unfolding count_links has_link
count_links_none i x [] h = refl
count_links_none i x (l ∷ links) h = ground (arith, h, count_links_none i x links)

count_links-unlink :
    (i : ℕ) (x : Bytes) (image : ℕ) (links : List TagLink)
    → count_links i x (unlink image links) ≤ count_links i x links
unfolding count_links unlink
count_links-unlink i x image [] = omega arith
count_links-unlink i x image (l ∷ links) = ground (arith, count_links-unlink i x image links)

was_linked :
    (i : ℕ) (x : Bytes) (image : ℕ) (links : List TagLink)
    → has_link i x (unlink image links) ≡ true
    → has_link i x links ≡ true
unfolding has_link unlink
was_linked i x image [] h = h
was_linked i x image (l ∷ links) h = ground (arith, h, was_linked i x image links)

-- A link among the old ones and a new one.
has_link_added :
    (i : ℕ) (x : Bytes) (links : List TagLink) (image : ℕ) (name : Bytes)
    → has_link i x (links ++ (record { image = image; tag = name }) ∷ []) ≡ true
    → (has_link i x links ≡ true) ⊎ ((image ≡ i) × (name ≡ x))
unfolding has_link
has_link_added i x links image name h = elim (Bool-cases (has_link i x links)) [
  | inl old ↦ inl old
  | inr new ↦
      let e : ((image == i) && bytes_eq name x) ≡ true =
        ground (
          arith,
          h,
          new,
          has_link-append i x links ((record { image = image; tag = name }) ∷ []),
        ) in
      inr (ground (arith, e), (bytes_eq_iff name x).0 (ground (arith, e)))
]

module _ (image : ℕ) (name : Bytes) (g : Gallery) (t : IsTidy g)
    (pic : has_picture image g.pictures ≡ true) (good : is_bad_tag name ≡ false)
    (free : has_link image name g.links ≡ false) where
  abbrev with_link : Gallery
  with_link = record g {
    tags = add_name name g.tags;
    links = g.links ++ (record { image = image; tag = name }) ∷ [];
  }

  with_link_names : (i : ℕ) (x : Bytes) → has_link i x with_link.links ≡ true → is_bad_tag x ≡ false
  with_link_names i x h = elim (has_link_added i x g.links image name h) [
    | inl old ↦ t.names i x old
    | inr (p, q) ↦ ap is_bad_tag (sym q) ∙ good
  ]

  with_link_known :
      (i : ℕ) (x : Bytes) → has_link i x with_link.links ≡ true → has_name x with_link.tags ≡ true
  with_link_known i x h = elim (has_link_added i x g.links image name h) [
    | inl old ↦ ground (arith, t.known i x old, has_name-add_name x name g.tags)
    | inr (p, q) ↦ ground (arith, has_name-add_name x name g.tags, (bytes_eq_iff name x).1 q)
  ]

  with_link_pictured :
      (i : ℕ) (x : Bytes) → has_link i x with_link.links ≡ true → has_picture i g.pictures ≡ true
  with_link_pictured i x h = elim (has_link_added i x g.links image name h) [
    | inl old ↦ t.linked i x old
    | inr (p, q) ↦ ap (λ k. has_picture k g.pictures) (sym p) ∙ pic
  ]

  with_link_once : (i : ℕ) (x : Bytes) → count_links i x with_link.links ≤ 1
  with_link_once i x = elim (Bool-cases ((image == i) && bytes_eq name x)) [
    | inr q ↦
        ground
          (arith, count_links-append i x g.links (record { image = image; tag = name }), t.once i x)
    | inl q ↦
        let none_yet : count_links i x g.links ≡ 0 = count_links_none i x g.links (
          ap (λ k. has_link k x g.links) (sym (ground (arith, q)))
          ∙ ap (λ y. has_link image y g.links) (sym ((bytes_eq_iff name x).0 (ground (arith, q))))
          ∙ free) in
        ground
          (arith, count_links-append i x g.links (record { image = image; tag = name }), none_yet)
  ]

  add_link-IsTidy : IsTidy with_link
  add_link-IsTidy = record {
    comments = t.comments;
    names = with_link_names;
    known = with_link_known;
    linked = with_link_pictured;
    once = with_link_once;
    liked = t.liked;
    liked_once = t.liked_once;
  }

-- A new link of a known name.
pub link_tag-IsTidy :
    (db : Database) (image : ℕ) (name : Bytes) (g : Gallery)
    → IsTidy g
    → has_picture image g.pictures ≡ true
    → is_bad_tag name ≡ false
    → Ensures (λ g'. IsTidy g' × (g'.pictures ≡ g.pictures)) (link_tag db image name g)
unfolding link_tag
link_tag-IsTidy db image name g t pic good = Ensures-stop_if (db.tag_fails name) 500 _ (λ _.
    Ensures-stop_if (db.link_fails name || has_link image name g.links) 500 _
      (λ free. gone (add_link-IsTidy image name g t pic good (ground (arith, free)), refl)))

pub unlink-IsTidy :
    (image : ℕ) (g : Gallery) → IsTidy g → IsTidy (record g { links = unlink image g.links })
unlink-IsTidy image g t = record {
  comments = t.comments;
  names = λ i x h. t.names i x (was_linked i x image g.links h);
  known = λ i x h. t.known i x (was_linked i x image g.links h);
  linked = λ i x h. t.linked i x (was_linked i x image g.links h);
  once = λ i x. omega (arith, count_links-unlink i x image g.links, t.once i x);
  liked = t.liked;
  liked_once = t.liked_once;
}
