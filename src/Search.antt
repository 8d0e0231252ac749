-- ===== src/Search.antt =====
-- The query language of the picture search, go_api/cmd/api/handlers.go: `parseImageSearch` and its
-- parser, and `compileImageSearch`. The text behind the parser's position stands for that
-- position. `lower` is `strings.ToLower`.
pub mod Bounds
pub mod Compile
pub mod Listing
mod Tests
use imageboard.Base.{
  ℕ, zero, suc, ◌+◌, ◌*◌, ◌∷◌, [], ◌++◌, List, Bool, true, false, ◌||◌, Option, none, some, ltb,
  ◌==◌, if◌then◌else◌, length,
}
use imageboard.Text.{
  Bytes, codes, is_nil, any_byte, is_space, trim_space, join_fields, replace_byte,
}
use imageboard.Password.{contains_control}

-- `imageSearchText`, `imageSearchTag`, `imageSearchPath`, `imageSearchComment`
pub data Kind : Type 0 where
  text tag path comment : Kind

-- `imageSearchNode`
pub data Node : Type 0 where
  term : Kind → Bytes → Node
  and_node or_node : Node → Node → Node
  not_node : Node → Node

-- A node, the text that is left, and the terms read so far.
pub data Parsed : Type 0 where
  out_of_fuel failed : Parsed
  parsed : Node → Bytes → ℕ → Parsed

unfoldable pub and_then : Parsed → (Node → Bytes → ℕ → Parsed) → Parsed
and_then out_of_fuel k = out_of_fuel
and_then failed k = failed
and_then (parsed node rest terms) k = k node rest terms

-- `skipSpace` tests single bytes, as the source does.
unfoldable pub skip_space : Bytes → Bytes
skip_space [] = []
skip_space (c ∷ s) = let rest = skip_space s in if is_space c then rest else c ∷ s

unfoldable pub consume : ℕ → Bytes → Option Bytes
consume value [] = none
consume value (c ∷ s) = if c == value then some s else none

unfoldable pub delimiter : ℕ → Bool
delimiter c =
    is_space c
    || (c == b'!')
    || (c == b'#')
    || (c == b'+')
    || (c == b'|')
    || (c == b'(')
    || (c == b')')

-- The bytes up to the first delimiter, and those from there on.
unfoldable pub scan : Bytes → Bytes × Bytes
unfolding delimiter
scan [] = ([], [])
scan (c ∷ s) = let rest = scan s in if delimiter c then ([], c ∷ s) else (c ∷ rest.0, rest.1)

-- `strings.IndexByte`, and what is before and behind the byte.
unfoldable pub until : ℕ → Bytes → Option (Bytes × Bytes)
until closing [] = none
until closing (c ∷ s) =
    let rest = until closing s in
    if c == closing
    then some ([], s)
    else elim rest [ none ↦ none | some (before, behind) ↦ some (c ∷ before, behind) ]

unfoldable pub normalize_search_term : (Bytes → Bytes) → Bytes → Bytes
normalize_search_term lower value = lower (trim_space (replace_byte b'_' b' ' value))

abbrev is_slash : ℕ → Bool
is_slash c = (c == b'/') || (c == b'\\')

unfoldable pub is_bad_tag : Bytes → Bool
is_bad_tag value =
    is_nil value || ltb 100 (length value) || any_byte is_slash value || contains_control value

unfoldable pub clean_tag : (Bytes → Bytes) → Bytes → Option Bytes
unfolding is_bad_tag
clean_tag lower value =
    let cleaned = lower (join_fields value) in if is_bad_tag cleaned then none else some cleaned

-- One term more; there are 20 at most.
unfoldable pub count_term : Kind → Bytes → Bytes → ℕ → Parsed
count_term kind value rest terms =
    if ltb 20 (suc terms) then failed else parsed (term kind value) rest (suc terms)

unfoldable pub checked_term : Kind → Bytes → Bytes → ℕ → Parsed
unfolding count_term
checked_term kind value rest terms =
    if is_nil value || ltb 100 (length value) then failed else count_term kind value rest terms

unfoldable pub tag_term : Option Bytes → Bytes → ℕ → Parsed
unfolding count_term
tag_term none rest terms = failed
tag_term (some value) rest terms = count_term tag value rest terms

unfoldable pub quoted_term : (Bytes → Bytes) → Kind → Option (Bytes × Bytes) → ℕ → Parsed
unfolding checked_term
quoted_term lower kind none terms = failed
quoted_term lower kind (some (value, rest)) terms =
    checked_term kind (normalize_search_term lower value) rest terms

-- The end of `parsePrimary`: a term.
unfoldable pub parse_term : (Bytes → Bytes) → Bytes → ℕ → Parsed
unfolding tag_term checked_term quoted_term
parse_term lower [] terms = failed
parse_term lower (c ∷ s) terms =
    if (c == b')') || (c == b'|') || (c == b'+')
    then failed
    else if c == b'#'
    then tag_term (clean_tag lower (normalize_search_term lower (scan s).0)) (scan s).1 terms
    else if c == b'['
    then quoted_term lower comment (until b']' s) terms
    else if c == b'\''
    then quoted_term lower path (until b'\'' s) terms
    else checked_term text (normalize_search_term lower (scan (c ∷ s)).0) (scan (c ∷ s)).1 terms

-- What `parseUnary` makes of a primary behind `!`.
unfoldable pub negate : Node → Bytes → ℕ → Parsed
negate (term text value) rest terms = failed
negate (term kind value) rest terms = parsed (not_node (term kind value)) rest terms
negate _ rest terms = failed

unfoldable pub close_with : Node → ℕ → Option Bytes → Parsed
close_with node terms none = failed
close_with node terms (some rest) = parsed node rest terms

-- The closing bracket of a group.
unfoldable pub close : Node → Bytes → ℕ → Parsed
unfolding close_with consume skip_space
close node s terms = close_with node terms (consume b')' (skip_space s))

-- Where `parseAnd` ends.
unfoldable pub ends_and : Bytes → Bool
ends_and [] = true
ends_and (c ∷ s) = (c == b'|') || (c == b')')

unfoldable pub skip_plus : Bytes → Bytes
skip_plus [] = []
skip_plus (c ∷ s) = if c == b'+' then s else c ∷ s

-- `parseOr`, `parseAnd`, `parseUnary`, `parsePrimary`, and the loops of the first two.
unfoldable mutual
  pub parse_or : (Bytes → Bytes) → ℕ → Bytes → ℕ → Parsed
  parse_or lower zero s terms = out_of_fuel
  parse_or lower (suc f) s terms = and_then (parse_and lower f s terms) (or_loop lower f)

  pub or_loop : (Bytes → Bytes) → ℕ → Node → Bytes → ℕ → Parsed
  or_loop lower zero left s terms = out_of_fuel
  or_loop lower (suc f) left s terms = elim (consume b'|' (skip_space s)) [
    | none ↦ parsed left (skip_space s) terms
    | some rest ↦
        and_then (parse_and lower f rest terms) (λ right. or_loop lower f (or_node left right))
  ]

  pub parse_and : (Bytes → Bytes) → ℕ → Bytes → ℕ → Parsed
  parse_and lower zero s terms = out_of_fuel
  parse_and lower (suc f) s terms = and_then (parse_unary lower f s terms) (and_loop lower f)

  pub and_loop : (Bytes → Bytes) → ℕ → Node → Bytes → ℕ → Parsed
  and_loop lower zero left s terms = out_of_fuel
  and_loop lower (suc f) left s terms = elim (ends_and (skip_space s)) [
    | true ↦ parsed left (skip_space s) terms
    | false ↦
        and_then (parse_unary lower f (skip_plus (skip_space s)) terms)
          (λ right. and_loop lower f (and_node left right))
  ]

  pub parse_unary : (Bytes → Bytes) → ℕ → Bytes → ℕ → Parsed
  parse_unary lower zero s terms = out_of_fuel
  parse_unary lower (suc f) s terms = elim (consume b'!' (skip_space s)) [
    | none ↦ parse_primary lower f (skip_space s) terms
    | some rest ↦ and_then (parse_primary lower f rest terms) negate
  ]

  pub parse_primary : (Bytes → Bytes) → ℕ → Bytes → ℕ → Parsed
  parse_primary lower zero s terms = out_of_fuel
  parse_primary lower (suc f) s terms = elim (consume b'(' (skip_space s)) [
    | none ↦ parse_term lower (skip_space s) terms
    | some rest ↦ and_then (parse_or lower f rest terms) close
  ]

-- What `parseImageSearch` returns; `everything` is a search with no root.
pub data Search : Type 0 where
  exhausted invalid everything : Search
  root : Node → Search

unfoldable pub whole : Parsed → Search
whole out_of_fuel = exhausted
whole failed = invalid
whole (parsed node rest terms) = if is_nil (skip_space rest) then root node else invalid

abbrev pub search_fuel : Bytes → ℕ
search_fuel s = 4 * length s + 4

unfoldable pub parse_image_search : (Bytes → Bytes) → Bytes → Search
unfolding whole skip_space
parse_image_search lower value =
    if ltb 1000 (length value)
    then invalid
    else if is_nil (skip_space value)
    then everything
    else whole (parse_or lower (search_fuel value) (skip_space value) 0)
