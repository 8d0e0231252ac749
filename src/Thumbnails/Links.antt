-- ===== src/Thumbnails/Links.antt =====
-- The links to thumbnails that the API gives out, go_api/cmd/api/handlers.go, and how
-- `parseThumbnailPath` of thumbnail.go reads them.
use imageboard.Base.{
  append_cons-ne-nil, ◌≡◌, ◌≢◌, refl, ap, ◌∙◌, sym, ◌∷◌, [], ◌++◌, List, map, true, false, some,
  arith,
}
use imageboard.Text.{
  Bytes, bytes_eq, codes, any_byte, AreBytes, All, All-mono, All-bool→All, split, join, join-split,
  join-append, split-join, split-ne-nil, Lacks, has_prefix-append, trim_prefix-append,
}
use imageboard.Paths.{
  safe_component, canonical_path, path_escape, path_unescape, encoded_path, but_last,
}
use imageboard.Paths.Escape.{path_unescape-append, path_unescape-join, AreBytes-split}
use imageboard.Paths.Links.{safe_component-Lacks, safe_components}
use imageboard.Thumbnails.{
  thumb_url, parse_thumbnail_path, parse_thumbnail_parts, last_part, variant_of, with_variant,
  small_width,
}

but_last-append : (ps : List Bytes) (q : Bytes) → but_last (ps ++ q ∷ []) ≡ ps
unfolding but_last
but_last-append [] q = refl
but_last-append (p ∷ []) q = refl
but_last-append (p ∷ p' ∷ ps) q = ap (λ r. p ∷ r) (but_last-append (p' ∷ ps) q)

last_part-append : (p : Bytes) (ps : List Bytes) (q : Bytes) → last_part (p ∷ ps ++ q ∷ []) ≡ q
last_part-append p [] q = refl
last_part-append p (p' ∷ ps) q = last_part-append p' ps q

parse_parts :
    (parts : List Bytes) (last : Bytes)
    → parts ≢ []
    → parse_thumbnail_parts (parts ++ last ∷ [])
      ≡ with_variant (canonical_path (join b'$' parts) false) (variant_of last)
parse_parts [] last h = absurd (h refl)
parse_parts (p ∷ []) last h = rw (but_last-append (p ∷ []) last) refl
parse_parts (p ∷ q ∷ r) last h =
    rw (but_last-append (p ∷ q ∷ r) last, last_part-append q r last) refl

map-append :
    (f : Bytes → Bytes) (ps : List Bytes) (q : Bytes) → map f (ps ++ q ∷ []) ≡ map f ps ++ f q ∷ []
map-append f [] q = refl
map-append f (p ∷ ps) q = ap (λ r. f p ∷ r) (map-append f ps q)

All-snoc :
    (P : Bytes → Type 0) (ps : List Bytes) (q : Bytes) → All P ps → P q → All P (ps ++ q ∷ [])
All-snoc P [] q h k = (k, tt)
All-snoc P (p ∷ ps) q h k = (h.0, All-snoc P ps q h.1 k)

map-ne-nil : (f : Bytes → Bytes) (ps : List Bytes) → ps ≢ [] → map f ps ≢ []
map-ne-nil f [] h = absurd (h refl)
map-ne-nil f (p ∷ ps) h = λ e. cc

small_escape : path_escape (codes "small") ≡ codes "small"
unfolding path_escape
small_escape = refl

AreBytes-small : AreBytes (codes "small")
AreBytes-small = ground arith

-- The parts of the link behind /thumbnail/, escaped and not.
abbrev link_parts : Bytes → List Bytes
link_parts path = split b'$' path ++ codes "small" ∷ []

encoded_link :
    (path : Bytes)
    → encoded_path path ++ codes "/small" ≡ join b'/' (map path_escape (link_parts path))
unfolding encoded_path join
encoded_link path = sym (
    ap (join b'/') (map-append path_escape (split b'$' path) (codes "small"))
    ∙ join-append b'/' (map path_escape (split b'$' path)) (path_escape (codes "small")) []
        (map-ne-nil path_escape (split b'$' path) (split-ne-nil b'$' path))
    ∙ ap (λ s. join b'/' (map path_escape (split b'$' path)) ++ b'/' ∷ s) small_escape)

thumb_url-unescape :
    (path : Bytes)
    → AreBytes path
    → path_unescape (thumb_url path) ≡ some (codes "/thumbnail/" ++ join b'/' (link_parts path))
unfolding thumb_url
thumb_url-unescape path h =
    path_unescape-append (codes "/thumbnail/") (encoded_path path ++ codes "/small")
      (unfold any_byte in refl)
      (ap path_unescape (encoded_link path)
        ∙ path_unescape-join (link_parts path) (
            All-snoc AreBytes (split b'$' path) (codes "small") (AreBytes-split b'$' path h)
              AreBytes-small))

parse_link :
    (path : Bytes) {found : Bytes}
    → canonical_path path false ≡ some found
    → parse_thumbnail_path (codes "/thumbnail/" ++ join b'/' (link_parts path))
      ≡ with_variant (canonical_path path false) (variant_of (codes "small"))
unfolding parse_thumbnail_path
parse_link path c =
    let lacks : All (Lacks b'/') (link_parts path) =
      All-snoc (Lacks b'/') (split b'$' path) (codes "small")
        (All-mono (λ p. safe_component p ≡ true) (Lacks b'/') (split b'$' path)
          (λ p h. (safe_component-Lacks p h).0)
          (All-bool→All safe_component (split b'$' path) (safe_components path c)))
        (unfold any_byte in refl) in
    rw
      (
        has_prefix-append (codes "/thumbnail/") (join b'/' (link_parts path)),
        trim_prefix-append (codes "/thumbnail/") (join b'/' (link_parts path)),
        split-join b'/' (link_parts path) (append_cons-ne-nil (split b'$' path) (codes "small") [])
            lacks,
        parse_parts (split b'$' path) (codes "small") (split-ne-nil b'$' path),
        join-split b'$' path,
      )
      refl

canonical_path_same : (path found : Bytes) → canonical_path path false ≡ some found → found ≡ path
unfolding canonical_path
canonical_path_same path found c = ground (arith, c, join-split b'$' path)

-- The link to the small thumbnail of a canonical path, once its escapes are resolved, is read as
-- that path and the small variant.
pub parse_thumbnail_path-thumb_url :
    (path : Bytes) {found : Bytes}
    → AreBytes path
    → canonical_path path false ≡ some found
    → (original : Bytes) × (path_unescape (thumb_url path) ≡ some original)
      × (parse_thumbnail_path original ≡ some (path, small_width))
parse_thumbnail_path-thumb_url path {found} h c = (
  _,
  thumb_url-unescape path h,
  parse_link path c
      ∙ ap (λ o. with_variant o (variant_of (codes "small")))
          (c ∙ ap some (canonical_path_same path found c))
      ∙ unfold bytes_eq in refl,
)
