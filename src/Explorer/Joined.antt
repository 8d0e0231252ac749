-- ===== src/Explorer/Joined.antt =====
-- The paths of what a folder holds, go_api/cmd/api/handlers.go `joinCanonical`.
use imageboard.Base.{
  ℕ, ◌≡◌, ap, ◌∙◌, sym, ◌∷◌, [], ◌++◌, List, true, false, some, arith, append_cons-ne-nil,
}
use imageboard.Text.{
  Bytes, All-mono, All-bool→All, all_bool, split, join, join-split, join-append, split-join,
  split-ne-nil, split-Lacks_whole, Lacks,
}
use imageboard.Paths.{safe_component, canonical_path, join_canonical}
use imageboard.Paths.Links.{safe_component-Lacks, canonical_path_whole}

all_bool-snoc :
    (ps : List Bytes) (q : Bytes)
    → all_bool safe_component ps ≡ true
    → safe_component q ≡ true
    → all_bool safe_component (ps ++ q ∷ []) ≡ true
all_bool-snoc [] q h k = ground (arith, k)
all_bool-snoc (p ∷ ps) q h k = ground (arith, h, all_bool-snoc ps q (ground (arith, h)) k)

split-join_canonical :
    (canonical name : Bytes)
    → all_bool safe_component (split b'$' canonical) ≡ true
    → safe_component name ≡ true
    → split b'$' (canonical ++ b'$' ∷ name) ≡ split b'$' canonical ++ name ∷ []
unfolding join
split-join_canonical canonical name h k =
    let parts : List Bytes = split b'$' canonical ++ name ∷ [] in
    let whole : join b'$' parts ≡ canonical ++ b'$' ∷ name =
      join-append b'$' (split b'$' canonical) name [] (split-ne-nil b'$' canonical)
      ∙ ap (λ s. s ++ b'$' ∷ name) (join-split b'$' canonical) in
    ap (split b'$') (sym whole)
    ∙ split-join b'$' parts (append_cons-ne-nil (split b'$' canonical) name []) (
        All-mono (λ p. safe_component p ≡ true) (Lacks b'$') parts
          (λ p h. (safe_component-Lacks p h).1)
          (All-bool→All safe_component parts (all_bool-snoc (split b'$' canonical) name h k)))

safe_parts_of :
    (requested : Bytes) (x : ℕ) (canonical : Bytes)
    → canonical_path requested true ≡ some (x ∷ canonical)
    → all_bool safe_component (split b'$' (x ∷ canonical)) ≡ true
unfolding canonical_path
safe_parts_of [] x canonical c = absurd (ground (arith, c))
safe_parts_of (r ∷ requested) x canonical c =
    let same : (r ∷ requested) ≡ (x ∷ canonical) =
      sym (join-split b'$' (r ∷ requested)) ∙ ground (arith, c) in
    ap (λ s. all_bool safe_component (split b'$' s)) (sym same) ∙ ground (arith, c)

-- A safe name in a folder of a canonical path makes a canonical path.
pub join_canonical-canonical_path :
    (requested canonical name : Bytes)
    → canonical_path requested true ≡ some canonical
    → safe_component name ≡ true
    → canonical_path (join_canonical canonical name) false ≡ some (join_canonical canonical name)
unfolding join_canonical
join_canonical-canonical_path requested [] name c k = canonical_path_whole name (
    ap (all_bool safe_component) (split-Lacks_whole b'$' name (safe_component-Lacks name k).1)
    ∙ ground (arith, k))
join_canonical-canonical_path requested (x ∷ canonical) name c k =
    canonical_path_whole ((x ∷ canonical) ++ b'$' ∷ name) (
      ap (all_bool safe_component)
        (split-join_canonical (x ∷ canonical) name (safe_parts_of requested x canonical c) k)
      ∙ all_bool-snoc (split b'$' (x ∷ canonical)) name (safe_parts_of requested x canonical c) k)
