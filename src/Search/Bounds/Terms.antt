-- ===== src/Search/Bounds/Terms.antt =====
-- How much a parser of searches reads and finds, and what the parser of a single term gives.
use imageboard.Base.{
  ℕ, suc, ◌+◌, ◌≤◌, ◌<◌, ◌≡◌, ◌≢◌, refl, ◌∷◌, [], false, ◌||◌, Option, none, some, ltb, ◌==◌,
  length, arith, Option-cases, Bool-cases, inl, inr,
}
use imageboard.Text.{join_fields, trim_space, replace_byte, Bytes}
use imageboard.Search.{
  Kind, text, tag, path, comment, Node, term, and_node, or_node, not_node, Parsed, out_of_fuel,
  failed, parsed, and_then, skip_space, consume, delimiter, scan, until, normalize_search_term,
  is_bad_tag, clean_tag, count_term, checked_term, tag_term, quoted_term, parse_term, negate, close,
  close_with, skip_plus,
}

unfoldable pub terms_of : Node → ℕ
terms_of (term kind value) = 1
terms_of (and_node left right) = terms_of left + terms_of right
terms_of (or_node left right) = terms_of left + terms_of right
terms_of (not_node node) = terms_of node

-- Terms are of 1 to 100 bytes, and only a tag, a path or a comment is negated.
unfoldable pub IsWellFormed : Node → Type 0
IsWellFormed (term kind value) = (0 < length value) × (length value ≤ 100)
IsWellFormed (and_node left right) = IsWellFormed left × IsWellFormed right
IsWellFormed (or_node left right) = IsWellFormed left × IsWellFormed right
IsWellFormed (not_node (term kind value)) =
    (kind ≢ text) × (0 < length value) × (length value ≤ 100)
IsWellFormed (not_node _) = ⊥

-- What a parser gives for a text shorter than `n`, when `t` terms had been read before its node:
-- it runs out of fuel only if `Short`.
pub data Gives (Short : Type 0) (n t : ℕ) : Parsed → Type 0 where
  short : Short → Gives Short n t out_of_fuel
  wrong : Gives Short n t failed
  right :
      (node : Node) (rest : Bytes) (terms : ℕ)
      → length rest < n
      → terms ≡ t + terms_of node
      → terms ≤ 20
      → IsWellFormed node
      → Gives Short n t (parsed node rest terms)

pub Gives-and_then :
    {Short Short' : Type 0} {m n t t' : ℕ} {p : Parsed} {k : Node → Bytes → ℕ → Parsed}
    → Gives Short m t p
    → (Short → Short')
    → ((node : Node) (rest : Bytes) (terms : ℕ)
        → length rest < m
        → terms ≡ t + terms_of node
        → terms ≤ 20
        → IsWellFormed node
        → Gives Short' n t' (k node rest terms))
    → Gives Short' n t' (and_then p k)
unfolding and_then
Gives-and_then (short s) f g = short (f s)
Gives-and_then wrong f g = wrong
Gives-and_then (right node rest terms l e b w) f g = g node rest terms l e b w

pub Gives-mono :
    {Short Short' : Type 0} {m n t : ℕ} {p : Parsed}
    → Gives Short m t p
    → (Short → Short')
    → m ≤ n
    → Gives Short' n t p
Gives-mono (short s) f h = short (f s)
Gives-mono wrong f h = wrong
Gives-mono (right node rest terms l e b w) f h = right node rest terms (omega (arith, l, h)) e b w

pub length-skip_space : (s : Bytes) → length (skip_space s) ≤ length s
unfolding skip_space
length-skip_space [] = omega arith
length-skip_space (c ∷ s) = ground (arith, length-skip_space s)

pub length-skip_plus : (s : Bytes) → length (skip_plus s) ≤ length s
unfolding skip_plus
length-skip_plus [] = omega arith
length-skip_plus (c ∷ s) = ground arith

pub length-consume :
    (value : ℕ) (s : Bytes) {rest : Bytes} → consume value s ≡ some rest → length rest < length s
unfolding consume
length-consume value [] h = ground arith
length-consume value (c ∷ s) h = ground arith

length-scan : (s : Bytes) → length (scan s).1 ≤ length s
unfolding scan
length-scan [] = omega arith
length-scan (c ∷ s) = ground (arith, length-scan s)

length-until :
    (closing : ℕ) (s : Bytes) {before rest : Bytes}
    → until closing s ≡ some (before, rest)
    → length rest < length s
unfolding until
length-until closing [] h = ground arith
length-until closing (c ∷ s) h = elim (Option-cases (until closing s)) [
  | inl e ↦ ground (arith, e)
  | inr ((b, r), e) ↦ ground (arith, e, length-until closing s e)
]

length_good_tag :
    (value : Bytes) → is_bad_tag value ≡ false → (0 < length value) × (length value ≤ 100)
unfolding is_bad_tag
length_good_tag [] h = ground arith
length_good_tag (c ∷ value) h = ground arith

length-clean_tag :
    (lower : Bytes → Bytes) (value : Bytes) {cleaned : Bytes}
    → clean_tag lower value ≡ some cleaned
    → (0 < length cleaned) × (length cleaned ≤ 100)
unfolding clean_tag
length-clean_tag lower value h = elim (Bool-cases (is_bad_tag (lower (join_fields value)))) [
  | inl e ↦ ground (arith, e)
  | inr e ↦ ground (arith, e, length_good_tag (lower (join_fields value)) e)
]

module _ {Short : Type 0} (n t : ℕ) where
  count_term-Gives :
      (kind : Kind) (value rest : Bytes)
      → length rest < n
      → 0 < length value
      → length value ≤ 100
      → Gives Short n t (count_term kind value rest t)
  unfolding count_term terms_of IsWellFormed
  count_term-Gives kind value rest l p b = elim (Bool-cases (ltb 20 (suc t))) [
    | inl e ↦ rw e wrong
    | inr e ↦ rw e (right _ rest _ l (omega arith) (ground arith) (p, b))
  ]

  checked_term-Gives :
      (kind : Kind) (value rest : Bytes)
      → length rest < n
      → Gives Short n t (checked_term kind value rest t)
  unfolding checked_term
  checked_term-Gives kind [] rest l = wrong
  checked_term-Gives kind (c ∷ value) rest l = elim (Bool-cases (ltb 100 (suc (length value)))) [
    | inl e ↦ rw e wrong
    | inr e ↦ rw e (count_term-Gives kind (c ∷ value) rest l (omega arith) (ground arith))
  ]

  tag_term-Gives :
      (lower : Bytes → Bytes) (value rest : Bytes)
      → length rest < n
      → Gives Short n t (tag_term (clean_tag lower value) rest t)
  unfolding tag_term
  tag_term-Gives lower value rest l = elim (Option-cases (clean_tag lower value)) [
    | inl e ↦ rw e wrong
    | inr (v, e) ↦ rw e (
        count_term-Gives tag v rest l (length-clean_tag lower value e).0
          (length-clean_tag lower value e).1)
  ]

  quoted_term-Gives :
      (lower : Bytes → Bytes) (kind : Kind) (o : Option (Bytes × Bytes))
      → ((before rest : Bytes) → o ≡ some (before, rest) → length rest < n)
      → Gives Short n t (quoted_term lower kind o t)
  unfolding quoted_term
  quoted_term-Gives lower kind none h = wrong
  quoted_term-Gives lower kind (some (before, rest)) h =
      checked_term-Gives kind (normalize_search_term lower before) rest (h before rest refl)

normalize_search_term-nil :
    (lower : Bytes → Bytes) → lower [] ≡ [] → normalize_search_term lower [] ≡ []
unfolding normalize_search_term trim_space replace_byte
normalize_search_term-nil lower h = h

plain_term-Gives :
    {Short : Type 0} (lower : Bytes → Bytes) (c : ℕ) (s : Bytes) (t : ℕ)
    → lower [] ≡ []
    → Gives Short
        (suc (length s))
        t
        (checked_term text (normalize_search_term lower (scan (c ∷ s)).0) (scan (c ∷ s)).1 t)
unfolding scan
plain_term-Gives lower c s t h = elim (Bool-cases (delimiter c)) [
  | inl e ↦ rw e (rw (normalize_search_term-nil lower h) (unfold checked_term in wrong))
  | inr e ↦ rw e (
      checked_term-Gives _ t text (normalize_search_term lower (c ∷ (scan s).0)) (scan s).1
        (omega (arith, length-scan s)))
]

-- `parsePrimary` at a term. Lower case leaves the empty text empty.
pub parse_term-Gives :
    {Short : Type 0} (lower : Bytes → Bytes) (s : Bytes) (t : ℕ)
    → lower [] ≡ []
    → Gives Short (length s) t (parse_term lower s t)
unfolding parse_term
parse_term-Gives lower [] t h = wrong
parse_term-Gives lower (c ∷ s) t h = elim (Bool-cases ((c == b')') || (c == b'|') || (c == b'+'))) [
  | inl e ↦ rw e wrong
  | inr e ↦ rw e (elim (Bool-cases (c == b'#')) [
    | inl e ↦ rw e (tag_term-Gives _ t lower _ _ (omega (arith, length-scan s)))
    | inr e ↦ rw e (elim (Bool-cases (c == b'[')) [
      | inl e ↦ rw e (
          quoted_term-Gives _ t lower comment (until b']' s)
            (λ b r f. omega (arith, length-until b']' s f)))
      | inr e ↦ rw e (elim (Bool-cases (c == b'\'')) [
        | inl e ↦ rw e (
            quoted_term-Gives _ t lower path (until b'\'' s)
              (λ b r f. omega (arith, length-until b'\'' s f)))
        | inr e ↦ rw e (plain_term-Gives lower c s t h)
      ])
    ])
  ])
]

pub negate-Gives :
    {Short : Type 0} (n t : ℕ) (node : Node) (rest : Bytes) (terms : ℕ)
    → length rest < n
    → terms ≡ t + terms_of node
    → terms ≤ 20
    → IsWellFormed node
    → Gives Short n t (negate node rest terms)
unfolding negate terms_of IsWellFormed
negate-Gives n t (term text value) rest terms l e b w = wrong
negate-Gives n t (term tag value) rest terms l e b w =
    right _ rest terms l e b (ground arith, w.0, w.1)
negate-Gives n t (term path value) rest terms l e b w =
    right _ rest terms l e b (ground arith, w.0, w.1)
negate-Gives n t (term comment value) rest terms l e b w =
    right _ rest terms l e b (ground arith, w.0, w.1)
negate-Gives n t (and_node _ _) rest terms l e b w = wrong
negate-Gives n t (or_node _ _) rest terms l e b w = wrong
negate-Gives n t (not_node _) rest terms l e b w = wrong

pub close-Gives :
    {Short : Type 0} (n t : ℕ) (node : Node) (rest : Bytes) (terms : ℕ)
    → length rest < n
    → terms ≡ t + terms_of node
    → terms ≤ 20
    → IsWellFormed node
    → Gives Short n t (close node rest terms)
unfolding close close_with
close-Gives n t node rest terms l e b w = elim (Option-cases (consume b')' (skip_space rest))) [
  | inl none_left ↦ rw none_left wrong
  | inr (behind, some_left) ↦ rw some_left (
      right node behind terms
        (omega (arith, length-consume b')' (skip_space rest) some_left, length-skip_space rest)) e b
        w)
]
