-- ===== src/Search/Bounds.antt =====
-- The results of the parser of searches, go_api/cmd/api/handlers.go `parseImageSearch`.
pub mod Terms
use imageboard.Base.{
  ℕ, zero, suc, ◌+◌, ◌*◌, ◌≤◌, ◌<◌, ◌≡◌, ◌≢◌, refl, ◌∷◌, [], false, ◌||◌, Option, none, some, ltb,
  ◌==◌, length, arith, Option-cases, Bool-cases, inl, inr, subst,
}
use imageboard.Text.{join_fields, trim_space, replace_byte, Bytes, is_nil}
use imageboard.Search.{
  Kind, text, tag, path, comment, Node, term, and_node, or_node, not_node, Parsed, out_of_fuel,
  failed, parsed, and_then, skip_space, consume, delimiter, scan, until, normalize_search_term,
  is_bad_tag, clean_tag, count_term, checked_term, tag_term, quoted_term, parse_term, negate, close,
  close_with, ends_and, skip_plus, parse_or, or_loop, parse_and, and_loop, parse_unary,
  parse_primary, Search, exhausted, root, whole, search_fuel, parse_image_search,
}
use imageboard.Search.Bounds.Terms.{
  terms_of, IsWellFormed, Gives, short, wrong, right, Gives-and_then, Gives-mono, length-skip_space,
  length-skip_plus, length-consume, parse_term-Gives, negate-Gives, close-Gives,
}

-- Each parser consumes what it reads, and 4 units of fuel for each byte are enough.
module _ (lower : Bytes → Bytes) (law : lower [] ≡ []) where
  mutual
    unfolding parse_or or_loop parse_and and_loop parse_unary parse_primary terms_of IsWellFormed

    parse_or-Gives :
        (f : ℕ) (s : Bytes) (t : ℕ)
        → Gives (f < 4 * length s + 4) (length s) t (parse_or lower f s t)
    parse_or-Gives zero s t = short (omega arith)
    parse_or-Gives (suc f) s t =
        Gives-and_then (parse_and-Gives f s t) (λ h. omega (arith, h))
          (λ node rest terms l e b w.
            Gives-mono (or_loop-Gives f node rest (length s) t terms l e b w)
              (λ h. omega (arith, h, l)) (omega arith))

    or_loop-Gives :
        (f : ℕ) (left : Node) (s : Bytes) (n t terms : ℕ)
        → length s < n
        → terms ≡ t + terms_of left
        → terms ≤ 20
        → IsWellFormed left
        → Gives (f < 4 * length s + 1) n t (or_loop lower f left s terms)
    or_loop-Gives zero left s n t terms l e b w = short (omega arith)
    or_loop-Gives (suc f) left s n t terms l e b w =
        elim (Option-cases (consume b'|' (skip_space s))) [
          | inl q ↦
              rw (q, or_loop)
                (right left (skip_space s) terms (omega (arith, length-skip_space s, l)) e b w)
          | inr (rest, q) ↦
              rw (q, or_loop)
                (Gives-and_then (parse_and-Gives f rest terms)
                  (λ h. omega (arith, h, length-consume b'|' (skip_space s) q, length-skip_space s))
                  (λ node rest' terms' l' e' b' w'.
                    Gives-mono
                      (or_loop-Gives f (or_node left node) rest' n t terms'
                        (omega
                          (arith, l', l, length-consume b'|' (skip_space s) q, length-skip_space s))
                        (omega (arith, e, e')) b' (w, w'))
                      (λ h.
                        omega
                          (arith, h, l', length-consume b'|' (skip_space s) q, length-skip_space s))
                      (omega arith)))
        ]

    parse_and-Gives :
        (f : ℕ) (s : Bytes) (t : ℕ)
        → Gives (f < 4 * length s + 3) (length s) t (parse_and lower f s t)
    parse_and-Gives zero s t = short (omega arith)
    parse_and-Gives (suc f) s t =
        Gives-and_then (parse_unary-Gives f s t) (λ h. omega (arith, h))
          (λ node rest terms l e b w.
            Gives-mono (and_loop-Gives f node rest (length s) t terms l e b w)
              (λ h. omega (arith, h, l)) (omega arith))

    and_loop-Gives :
        (f : ℕ) (left : Node) (s : Bytes) (n t terms : ℕ)
        → length s < n
        → terms ≡ t + terms_of left
        → terms ≤ 20
        → IsWellFormed left
        → Gives (f < 4 * length s + 3) n t (and_loop lower f left s terms)
    and_loop-Gives zero left s n t terms l e b w = short (omega arith)
    and_loop-Gives (suc f) left s n t terms l e b w = elim (Bool-cases (ends_and (skip_space s))) [
      | inl q ↦
          rw (q, and_loop)
            (right left (skip_space s) terms (omega (arith, length-skip_space s, l)) e b w)
      | inr q ↦
          rw (q, and_loop)
            (Gives-and_then (parse_unary-Gives f (skip_plus (skip_space s)) terms)
              (λ h. omega (arith, h, length-skip_plus (skip_space s), length-skip_space s))
              (λ node rest' terms' l' e' b' w'.
                Gives-mono
                  (and_loop-Gives f (and_node left node) rest' n t terms'
                    (omega (arith, l', l, length-skip_plus (skip_space s), length-skip_space s))
                    (omega (arith, e, e')) b' (w, w'))
                  (λ h. omega (arith, h, l', length-skip_plus (skip_space s), length-skip_space s))
                  (omega arith)))
    ]

    parse_unary-Gives :
        (f : ℕ) (s : Bytes) (t : ℕ)
        → Gives (f < 4 * length s + 2) (length s) t (parse_unary lower f s t)
    parse_unary-Gives zero s t = short (omega arith)
    parse_unary-Gives (suc f) s t = elim (Option-cases (consume b'!' (skip_space s))) [
      | inl q ↦
          rw (q, parse_unary)
            (Gives-mono (parse_primary-Gives f (skip_space s) t)
              (λ h. omega (arith, h, length-skip_space s)) (length-skip_space s))
      | inr (rest, q) ↦
          rw (q, parse_unary)
            (Gives-and_then (parse_primary-Gives f rest t)
              (λ h. omega (arith, h, length-consume b'!' (skip_space s) q, length-skip_space s))
              (λ node rest' terms l e b w.
                negate-Gives (length s) t node rest' terms
                  (omega (arith, l, length-consume b'!' (skip_space s) q, length-skip_space s)) e b
                  w))
    ]

    parse_primary-Gives :
        (f : ℕ) (s : Bytes) (t : ℕ)
        → Gives (f < 4 * length s + 1) (length s) t (parse_primary lower f s t)
    parse_primary-Gives zero s t = short (omega arith)
    parse_primary-Gives (suc f) s t = elim (Option-cases (consume b'(' (skip_space s))) [
      | inl q ↦
          rw (q, parse_primary)
            (Gives-mono (parse_term-Gives lower (skip_space s) t law) (λ h. h)
              (length-skip_space s))
      | inr (rest, q) ↦
          rw (q, parse_primary)
            (Gives-and_then (parse_or-Gives f rest t)
              (λ h. omega (arith, h, length-consume b'(' (skip_space s) q, length-skip_space s))
              (λ node rest' terms l e b w.
                close-Gives (length s) t node rest' terms
                  (omega (arith, l, length-consume b'(' (skip_space s) q, length-skip_space s)) e b
                  w))
    ]

IsSmall : Search → Type 0
IsSmall exhausted = ⊥
IsSmall (root node) = (terms_of node ≤ 20) × IsWellFormed node
IsSmall _ = Unit {0}

whole-IsSmall :
    {Short : Type 0} {n : ℕ} {p : Parsed} → Gives Short n 0 p → (Short → ⊥) → IsSmall (whole p)
unfolding whole IsSmall
whole-IsSmall (short s) f = f s
whole-IsSmall wrong f = tt
whole-IsSmall (right node rest terms l e b w) f = elim (Bool-cases (is_nil (skip_space rest))) [
  | inl q ↦ rw q (omega (arith, e, b), w)
  | inr q ↦ rw q tt
]

parse_image_search-IsSmall :
    (lower : Bytes → Bytes) (value : Bytes)
    → lower [] ≡ []
    → IsSmall (parse_image_search lower value)
unfolding parse_image_search IsSmall
parse_image_search-IsSmall lower value law = elim (Bool-cases (ltb 1000 (length value))) [
  | inl q ↦ rw q tt
  | inr q ↦ rw q (elim (Bool-cases (is_nil (skip_space value))) [
    | inl q ↦ rw q tt
    | inr q ↦ rw q (
        whole-IsSmall (parse_or-Gives lower law (search_fuel value) (skip_space value) 0)
          (λ h. omega (arith, h, length-skip_space value)))
  ])
]

-- Every search text is read to an end: the fuel of the model is always enough. Lower case leaves
-- the empty text empty.
pub parse_image_search_total :
    (lower : Bytes → Bytes) (value : Bytes)
    → lower [] ≡ []
    → parse_image_search lower value ≢ exhausted
unfolding IsSmall
parse_image_search_total lower value law h =
    subst IsSmall h (parse_image_search-IsSmall lower value law)

-- The tree of a search has 20 terms at most, each of 1 to 100 bytes, and `!` stands only on a tag, a
-- path or a comment. Lower case leaves the empty text empty.
pub parse_image_search-IsWellFormed :
    (lower : Bytes → Bytes) (value : Bytes) {node : Node}
    → lower [] ≡ []
    → parse_image_search lower value ≡ root node
    → (terms_of node ≤ 20) × IsWellFormed node
unfolding IsSmall
parse_image_search-IsWellFormed lower value law h =
    subst IsSmall h (parse_image_search-IsSmall lower value law)
