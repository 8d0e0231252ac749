-- ===== src/Paths/Links.antt =====
-- The links that the API gives out for its media, and what is asked when they are followed.
use imageboard.Base.{
  ℕ, ◌≡◌, refl, ap, ◌∙◌, ◌∷◌, [], ◌++◌, List, map, Bool, true, false, ◌||◌, some, ◌==◌,
  if◌then◌else◌, arith, Bool-cases, inl, inr,
}
use imageboard.Text.{
  Bytes, codes, any_byte, has_prefix-append, trim_prefix-append, All, All-mono, AreBytes, all_bool,
  All-bool→All, split, join, join-split, split-Lacks_whole, Lacks, replace_byte,
}
use imageboard.Paths.{
  is_separator, safe_component, canonical_path, path_escape, path_unescape, encoded_path, media,
  asked, asked_original, allow, authorize_media,
}
use imageboard.Paths.Escape.{path_unescape-append, path_unescape-join, Lacks-join, AreBytes-split}

any_byte_mono :
    (p q : ℕ → Bool) (s : Bytes)
    → ((c : ℕ) → p c ≡ true → q c ≡ true)
    → any_byte q s ≡ false
    → any_byte p s ≡ false
unfolding any_byte
any_byte_mono p q [] f h = refl
any_byte_mono p q (c ∷ s) f h = elim (Bool-cases (p c)) [
  | inl e ↦ absurd (ground (arith, f c e, h))
  | inr e ↦ rw e (any_byte_mono p q s f (ground (arith, h)))
]

pub safe_component-Lacks : (p : Bytes) → safe_component p ≡ true → Lacks b'/' p × Lacks b'$' p
unfolding safe_component
safe_component-Lacks p h = (
  any_byte_mono (λ b. b == b'/') is_separator p (λ c e. ground (arith, e)) (ground (arith, h)),
  any_byte_mono (λ b. b == b'$') is_separator p (λ c e. ground (arith, e)) (ground (arith, h)),
)

replace_byte-Lacks : (old new : ℕ) (p : Bytes) → Lacks old p → replace_byte old new p ≡ p
unfolding replace_byte any_byte
replace_byte-Lacks old new [] h = refl
replace_byte-Lacks old new (c ∷ p) h =
    ground (arith, replace_byte-Lacks old new p (ground (arith, h)), h)

replace_byte-append :
    (old new : ℕ) (p s : Bytes)
    → replace_byte old new (p ++ s) ≡ replace_byte old new p ++ replace_byte old new s
unfolding replace_byte
replace_byte-append old new [] s = refl
replace_byte-append old new (c ∷ p) s = rw (replace_byte-append old new p s) refl

replace_byte-join :
    (parts : List Bytes)
    → All (Lacks b'/') parts
    → replace_byte b'/' b'$' (join b'/' parts) ≡ join b'$' parts
unfolding join replace_byte
replace_byte-join [] h = refl
replace_byte-join (p ∷ []) h = replace_byte-Lacks b'/' b'$' p h.0
replace_byte-join (p ∷ q ∷ r) h =
    rw
      (
        replace_byte-append b'/' b'$' p (b'/' ∷ join b'/' (q ∷ r)),
        replace_byte-Lacks b'/' b'$' p h.0,
        replace_byte-join (q ∷ r) h.1,
      )
      refl

pub safe_components :
    (path : Bytes) {found : Bytes}
    → canonical_path path false ≡ some found
    → all_bool safe_component (split b'$' path) ≡ true
unfolding canonical_path
safe_components path h = ground (arith, h)

encoded_path-unescape :
    (path : Bytes)
    → AreBytes path
    → path_unescape (codes "/media/" ++ encoded_path path)
      ≡ some (codes "/media/" ++ join b'/' (split b'$' path))
unfolding encoded_path
encoded_path-unescape path h =
    path_unescape-append (codes "/media/") (join b'/' (map path_escape (split b'$' path)))
      (unfold any_byte in refl) (path_unescape-join (split b'$' path) (AreBytes-split b'$' path h))

asked_media :
    (path : Bytes)
    → All (Lacks b'/') (split b'$' path)
    → asked_original (some (codes "/media/" ++ join b'/' (split b'$' path))) ≡ media path
unfolding asked_original
asked_media path h =
    rw
      (
        has_prefix-append (codes "/media/") (join b'/' (split b'$' path)),
        trim_prefix-append (codes "/media/") (join b'/' (split b'$' path)),
        replace_byte-join (split b'$' path) h,
        join-split b'$' path,
      )
      refl

asked_unescaped :
    (uri original : Bytes)
    → Lacks b'?' uri
    → path_unescape uri ≡ some original
    → asked uri ≡ asked_original (some original)
unfolding asked
asked_unescaped uri original h e = rw (split-Lacks_whole b'?' uri h, e) refl

encoded_path-Lacks : (path : Bytes) → Lacks b'?' (codes "/media/" ++ encoded_path path)
unfolding encoded_path any_byte
encoded_path-Lacks path = Lacks-join (split b'$' path)

asked-encoded_path :
    (path : Bytes) {found : Bytes}
    → AreBytes path
    → canonical_path path false ≡ some found
    → asked (codes "/media/" ++ encoded_path path) ≡ media path
asked-encoded_path path h c =
    asked_unescaped (codes "/media/" ++ encoded_path path) _ (encoded_path-Lacks path)
      (encoded_path-unescape path h)
    ∙ asked_media path (
        All-mono (λ p. safe_component p ≡ true) (Lacks b'/') (split b'$' path)
          (λ p h. (safe_component-Lacks p h).0)
          (All-bool→All safe_component (split b'$' path) (safe_components path c)))

-- The link of a canonical path under /media/ is let through for an administrator, and for anyone
-- else exactly if the index has that very path.
pub authorize_media-encoded_path :
    (indexed : Bytes → Bool) (admin : Bool) (path : Bytes) {found : Bytes}
    → AreBytes path
    → canonical_path path false ≡ some found
    → authorize_media indexed admin (codes "/media/" ++ encoded_path path)
      ≡ (if admin || indexed path then 204 else 403)
unfolding authorize_media allow
authorize_media-encoded_path indexed admin path h c =
    ap (allow indexed admin) (asked-encoded_path path h c)

pub canonical_path_whole :
    (path : Bytes)
    → all_bool safe_component (split b'$' path) ≡ true
    → canonical_path path false ≡ some path
unfolding canonical_path split safe_component
canonical_path_whole [] h = absurd (ground (arith, h))
canonical_path_whole (c ∷ path) h = rw (h, join-split b'$' (c ∷ path)) refl
