-- ===== src/Index/Walk/Beneath.antt =====
-- The paths of the files that a walk of the media tree lists.
use imageboard.Base.{
  append_cons-ne-nil, ℕ, suc, ◌≡◌, refl, ◌∷◌, [], ◌++◌, List, true, false, Option, none, some,
  arith, Bool-cases, inl, inr, append_assoc, sym, ◌∙◌, ap,
}
use imageboard.Text.{
  Bytes, All, All-mono, all_bool, All-bool→All, has_prefix, has_prefix-append, join, split,
  join-split, join-append, split-join, split-ne-nil, Lacks,
}
use imageboard.Paths.{safe_component, canonical_path}
use imageboard.Paths.Links.{safe_component-Lacks, canonical_path_whole}
use imageboard.Paths.Kinds.{supported_media}
use imageboard.Index.Images.{File}
use imageboard.Index.Images.Like.{is_under}
use imageboard.Index.Walk.{
  Node, folder, regular, link, special, Nodes, nil, cons, Scanner, safe_parts, too_deep,
}
use imageboard.Index.Walk.Process.{root_parts}
use imageboard.Index.Walk.Lists.{media_files, media_files_all, if_listed}

-- The file's path goes on from these parts, and all its parts are safe.
pub record GoesOn (parts : List Bytes) (f : File) : Type 0 where
  pub next : Bytes
  pub more : List Bytes
  pub path_eq : f.path ≡ join b'$' (parts ++ next ∷ more)
  pub safe : safe_parts (parts ++ next ∷ more) ≡ true

GoesOn-parent :
    (parts : List Bytes) (name : Bytes) (f : File) → GoesOn (parts ++ name ∷ []) f → GoesOn parts f
GoesOn-parent parts name f g = record {
  next = name;
  more = g.next ∷ g.more;
  path_eq = g.path_eq ∙ ap (join b'$') (append_assoc parts (name ∷ []) (g.next ∷ g.more));
  safe = ap safe_parts (sym (append_assoc parts (name ∷ []) (g.next ∷ g.more))) ∙ g.safe;
}

All-append {ℓ} :
    {A : Type ℓ} (P : A → Type 0) (xs ys : List A) → All P xs → All P ys → All P (xs ++ ys)
All-append P [] ys h k = k
All-append P (x ∷ xs) ys h k = (h.0, All-append P xs ys h.1 k)

module _ (w : Scanner) where
  if_listed-GoesOn :
      (parts : List Bytes) (name : Bytes) (size : Option ℕ)
      → safe_parts (parts ++ name ∷ []) ≡ true
      → All (GoesOn parts) (if_listed w (parts ++ name ∷ []) name size)
  if_listed-GoesOn parts name none h = tt
  if_listed-GoesOn parts name (some size) h =
      (record { next = name; more = []; path_eq = refl; safe = h }, tt)

  mutual
    unfolding media_files media_files_all

    media_files-GoesOn :
        (parts : List Bytes) (depth : ℕ) (node : Node)
        → All (GoesOn parts) (media_files w parts depth node)
    media_files-GoesOn parts depth (folder name readable entries) =
        elim (Bool-cases (safe_parts (parts ++ name ∷ []))) [
          | inr q ↦ rw (q, media_files) tt
          | inl q ↦ elim (Bool-cases (too_deep w.max_depth depth)) [
            | inl p ↦ rw (q, p, media_files) tt
            | inr p ↦ elim (Bool-cases readable) [
              | inr r ↦ rw (q, p, r, media_files) tt
              | inl r ↦
                  rw (q, p, r, media_files)
                    (All-mono (GoesOn (parts ++ name ∷ [])) (GoesOn parts)
                      (media_files_all w (parts ++ name ∷ []) (suc depth) entries)
                      (GoesOn-parent parts name)
                      (media_files_all-GoesOn (parts ++ name ∷ []) (suc depth) entries))
            ]
          ]
        ]
    media_files-GoesOn parts depth (regular name size) =
        elim (Bool-cases (safe_parts (parts ++ name ∷ []))) [
          | inr q ↦ rw (q, media_files) tt
          | inl q ↦ elim (Bool-cases (supported_media w.lower name)) [
            | inr p ↦ rw (q, p, media_files) tt
            | inl p ↦ rw (q, p, media_files) (if_listed-GoesOn parts name size q)
          ]
        ]
    media_files-GoesOn parts depth (link name) = tt
    media_files-GoesOn parts depth (special name) = tt

    pub media_files_all-GoesOn :
        (parts : List Bytes) (depth : ℕ) (nodes : Nodes)
        → All (GoesOn parts) (media_files_all w parts depth nodes)
    media_files_all-GoesOn parts depth nil = tt
    media_files_all-GoesOn parts depth (cons node rest) =
        All-append (GoesOn parts) (media_files w parts depth node)
          (media_files_all w parts depth rest) (media_files-GoesOn parts depth node)
          (media_files_all-GoesOn parts depth rest)

pub GoesOn-is_under :
    (root : Bytes) (f : File) → GoesOn (root_parts root) f → is_under root f.path ≡ true
unfolding is_under root_parts
GoesOn-is_under [] f g = refl
GoesOn-is_under (c ∷ root) f g =
    let rest : Bytes = join b'$' (g.next ∷ g.more) in
    let below : f.path ≡ (c ∷ root) ++ b'$' ∷ rest =
      g.path_eq
      ∙ join-append b'$' (split b'$' (c ∷ root)) g.next g.more (split-ne-nil b'$' (c ∷ root))
      ∙ ap (λ s. s ++ b'$' ∷ rest) (join-split b'$' (c ∷ root)) in
    let starts : has_prefix f.path (c ∷ (root ++ b'$' ∷ [])) ≡ true =
      ap (λ s. has_prefix s (c ∷ (root ++ b'$' ∷ [])))
        (below ∙ sym (append_assoc (c ∷ root) (b'$' ∷ []) rest))
      ∙ has_prefix-append (c ∷ (root ++ b'$' ∷ [])) rest in
    ground (arith, starts)

GoesOn-split :
    (parts : List Bytes) (f : File) (g : GoesOn parts f)
    → split b'$' f.path ≡ parts ++ g.next ∷ g.more
unfolding safe_parts
GoesOn-split parts f g =
    let whole : List Bytes = parts ++ g.next ∷ g.more in
    ap (split b'$') g.path_eq
    ∙ split-join b'$' whole (append_cons-ne-nil parts g.next g.more) (
        All-mono (λ p. safe_component p ≡ true) (Lacks b'$') whole
          (λ p h. (safe_component-Lacks p h).1) (All-bool→All safe_component whole g.safe))

pub GoesOn-canonical_path :
    (parts : List Bytes) (f : File) → GoesOn parts f → canonical_path f.path false ≡ some f.path
unfolding safe_parts
GoesOn-canonical_path parts f g =
    canonical_path_whole f.path (ap (all_bool safe_component) (GoesOn-split parts f g) ∙ g.safe)
