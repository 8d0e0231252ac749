-- ===== src/Index/Images/Like.antt =====
-- The scope of a scan as SQL reads it, index_worker/cmd/index-worker/main.go `staleDeleteQuery`.
use imageboard.Base.{
  ℕ, ◌≡◌, refl, ◌∷◌, [], ◌++◌, Bool, true, false, ◌||◌, ◌==◌, arith, append_assoc,
}
use imageboard.Text.{Bytes, bytes_eq, is_nil, any_byte, has_prefix, has_prefix-append}
use imageboard.Index.Images.{like, one_then, in_scope}

-- The characters that LIKE reads as more than themselves.
abbrev pub is_special : ℕ → Bool
is_special c = c == b'%' || c == b'_' || c == 0x5C

abbrev pub IsPlain : Bytes → Type 0
IsPlain s = any_byte is_special s ≡ false

-- The root itself, or a path below it; every path, for the empty root.
unfoldable pub is_under : Bytes → Bytes → Bool
is_under root path = is_nil root || bytes_eq path root || has_prefix path (root ++ b'$' ∷ [])

like_below :
    (root path : Bytes)
    → IsPlain root
    → like (root ++ b'$' ∷ b'%' ∷ []) path ≡ has_prefix path (root ++ b'$' ∷ [])
unfolding like one_then has_prefix any_byte
like_below [] [] h = refl
like_below [] (c ∷ t) h = ground (arith)
like_below (r ∷ []) [] h = ground arith
like_below (r ∷ []) (c ∷ t) h = ground (arith, like_below [] t)
like_below (r ∷ r' ∷ rs) [] h = ground arith
like_below (r ∷ r' ∷ rs) (c ∷ t) h = ground (arith, like_below (r' ∷ rs) t)

-- For a root of plain characters, the scope in SQL is the root and what is below it.
pub in_scope-is_under : (root path : Bytes) → IsPlain root → in_scope root path ≡ is_under root path
unfolding in_scope is_under
in_scope-is_under root path h = rw (like_below root path h)

like_underscore :
    (a b rest : Bytes) (c : ℕ)
    → IsPlain a
    → IsPlain b
    → like (a ++ b'_' ∷ (b ++ b'$' ∷ b'%' ∷ [])) (a ++ c ∷ (b ++ b'$' ∷ rest)) ≡ true
unfolding like one_then any_byte
like_underscore [] [] rest c ha hb =
    ground (arith, like_below [] (b'$' ∷ rest), has_prefix-append (b'$' ∷ []) rest)
like_underscore [] (x ∷ b) rest c ha hb = ground (
  arith,
  like_below (x ∷ b) ((x ∷ b) ++ b'$' ∷ rest) hb,
  has_prefix-append ((x ∷ b) ++ b'$' ∷ []) rest,
  append_assoc (x ∷ b) (b'$' ∷ []) rest,
)
like_underscore (x ∷ []) b rest c ha hb = ground (arith, like_underscore [] b rest c)
like_underscore (x ∷ y ∷ a) b rest c ha hb = ground (arith, like_underscore (y ∷ a) b rest c)

-- For a root a_b, a path below acb is in scope, for any character c.
pub in_scope_underscore :
    (a b rest : Bytes) (c : ℕ)
    → IsPlain a
    → IsPlain b
    → in_scope (a ++ b'_' ∷ b) (a ++ c ∷ (b ++ b'$' ∷ rest)) ≡ true
unfolding in_scope
in_scope_underscore a b rest c ha hb =
    ground (arith, like_underscore a b rest c ha hb, append_assoc a (b'_' ∷ b) (b'$' ∷ b'%' ∷ []))

has_prefix_other :
    (a b rest : Bytes) (c : ℕ)
    → (c == b'_') ≡ false
    → has_prefix (a ++ c ∷ rest) (a ++ b'_' ∷ b) ≡ false
unfolding has_prefix
has_prefix_other [] b rest c n = ground arith
has_prefix_other (x ∷ a) b rest c n = ground (arith, has_prefix_other a b rest c)

bytes_eq_other :
    (a b rest : Bytes) (c : ℕ)
    → (c == b'_') ≡ false
    → bytes_eq (a ++ c ∷ rest) (a ++ b'_' ∷ b) ≡ false
unfolding bytes_eq
bytes_eq_other [] b rest c n = ground arith
bytes_eq_other (x ∷ a) b rest c n = ground (arith, bytes_eq_other a b rest c)

-- But it is not below the root, if c is not the underscore.
pub not_under :
    (a b rest : Bytes) (c : ℕ)
    → (c == b'_') ≡ false
    → is_under (a ++ b'_' ∷ b) (a ++ c ∷ (b ++ b'$' ∷ rest)) ≡ false
unfolding is_under
not_under [] b rest c n = ground (
  arith,
  bytes_eq_other [] b (b ++ b'$' ∷ rest) c n,
  has_prefix_other [] (b ++ b'$' ∷ []) (b ++ b'$' ∷ rest) c n,
)
not_under (x ∷ a) b rest c n = ground (
  arith,
  bytes_eq_other (x ∷ a) b (b ++ b'$' ∷ rest) c n,
  has_prefix_other (x ∷ a) (b ++ b'$' ∷ []) (b ++ b'$' ∷ rest) c n,
  append_assoc (x ∷ a) (b'_' ∷ b) (b'$' ∷ []),
)
