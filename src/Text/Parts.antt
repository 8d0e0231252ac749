-- ===== src/Text/Parts.antt =====
-- `strings.Split` and `strings.Join` by one byte.
use imageboard.Base.{
  ℕ, ◌≡◌, ◌≢◌, refl, ap, false, ◌∷◌, [], List, ◌++◌, ◌==◌, if◌then◌else◌, arith, Bool-cases, sym,
  append_assoc, inl, inr,
}
use imageboard.Text.Compare.{Bytes, All, any_byte}

-- The byte goes to the front of the first part.
abbrev pub push_front : ℕ → List Bytes → List Bytes
push_front c [] = (c ∷ []) ∷ []
push_front c (p ∷ ps) = (c ∷ p) ∷ ps

unfoldable pub split : ℕ → Bytes → List Bytes
split sep [] = [] ∷ []
split sep (c ∷ s) = let rest = split sep s in if c == sep then [] ∷ rest else push_front c rest

unfoldable pub join : ℕ → List Bytes → Bytes
join sep [] = []
join sep (p ∷ []) = p
join sep (p ∷ q ∷ r) = p ++ sep ∷ join sep (q ∷ r)

abbrev pub Lacks : ℕ → Bytes → Type 0
Lacks sep s = any_byte (λ b. b == sep) s ≡ false

pub split-ne-nil : (sep : ℕ) (s : Bytes) → split sep s ≢ []
unfolding split
split-ne-nil sep [] = λ h. cc
split-ne-nil sep (c ∷ s) = ground (arith, split-ne-nil sep s)

join-nil_cons : (sep : ℕ) (ps : List Bytes) → ps ≢ [] → join sep ([] ∷ ps) ≡ sep ∷ join sep ps
unfolding join
join-nil_cons sep [] h = absurd (h refl)
join-nil_cons sep (p ∷ ps) h = refl

join-push_front :
    (sep c : ℕ) (ps : List Bytes) → ps ≢ [] → join sep (push_front c ps) ≡ c ∷ join sep ps
unfolding join
join-push_front sep c [] h = absurd (h refl)
join-push_front sep c (p ∷ []) h = refl
join-push_front sep c (p ∷ q ∷ r) h = refl

-- Joining the parts of a split gives the text back.
pub join-split : (sep : ℕ) (s : Bytes) → join sep (split sep s) ≡ s
unfolding split
join-split sep [] = unfold join in refl
join-split sep (c ∷ s) = ground (
  arith,
  join-split sep s,
  split-ne-nil sep s,
  join-nil_cons sep (split sep s) (split-ne-nil sep s),
  join-push_front sep c (split sep s) (split-ne-nil sep s),
)

Lacks-push_front :
    (sep c : ℕ) (ps : List Bytes)
    → (c == sep) ≡ false
    → All (Lacks sep) ps
    → All (Lacks sep) (push_front c ps)
unfolding any_byte
Lacks-push_front sep c [] h a = (ground arith, tt)
Lacks-push_front sep c (p ∷ ps) h a = (ground arith, a.1)

-- No part of a split holds the separator.
pub split-Lacks : (sep : ℕ) (s : Bytes) → All (Lacks sep) (split sep s)
unfolding split
split-Lacks sep [] = (unfold any_byte in refl, tt)
split-Lacks sep (c ∷ s) = elim (Bool-cases (c == sep)) [
  | inl e ↦ rw e (unfold any_byte in refl, split-Lacks sep s)
  | inr e ↦ rw e (Lacks-push_front sep c (split sep s) e (split-Lacks sep s))
]

split_at_sep : (sep : ℕ) (s : Bytes) → split sep (sep ∷ s) ≡ [] ∷ split sep s
unfolding split
split_at_sep sep s = ground arith

-- A text that lacks the separator, followed by one: the first part is that text.
pub split-append_sep :
    (sep : ℕ) (p s : Bytes) → Lacks sep p → split sep (p ++ sep ∷ s) ≡ p ∷ split sep s
unfolding any_byte split
split-append_sep sep [] s h = split_at_sep sep s
split-append_sep sep (c ∷ p) s h = ground (arith, split-append_sep sep p s (ground arith))

pub split-Lacks_whole : (sep : ℕ) (p : Bytes) → Lacks sep p → split sep p ≡ p ∷ []
unfolding split any_byte
split-Lacks_whole sep [] h = refl
split-Lacks_whole sep (c ∷ p) h = ground (arith, split-Lacks_whole sep p (ground arith))

-- Splitting a join gives the parts back, if there is one and none holds the separator.
pub split-join :
    (sep : ℕ) (ps : List Bytes) → ps ≢ [] → All (Lacks sep) ps → split sep (join sep ps) ≡ ps
unfolding join
split-join sep [] h a = absurd (h refl)
split-join sep (p ∷ []) h a = split-Lacks_whole sep p a.0
split-join sep (p ∷ q ∷ r) h a =
    rw (split-append_sep sep p (join sep (q ∷ r)) a.0)
      (ap (λ ps. p ∷ ps) (split-join sep (q ∷ r) (λ e. cc) a.1))

pub join-append :
    (sep : ℕ) (ps : List Bytes) (q : Bytes) (qs : List Bytes)
    → ps ≢ []
    → join sep (ps ++ q ∷ qs) ≡ join sep ps ++ sep ∷ join sep (q ∷ qs)
unfolding join
join-append sep [] q qs h = absurd (h refl)
join-append sep (p ∷ []) q qs h = refl
join-append sep (p ∷ p' ∷ ps) q qs h =
    rw (join-append sep (p' ∷ ps) q qs (λ e. cc))
      (sym (append_assoc p (sep ∷ join sep (p' ∷ ps)) (sep ∷ join sep (q ∷ qs))))
