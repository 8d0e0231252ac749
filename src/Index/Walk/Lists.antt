-- ===== src/Index/Walk/Lists.antt =====
-- The walk and the list of the media files that a tree holds.
use imageboard.Base.{
  ℕ, suc, ◌+◌, ◌≡◌, refl, ◌∷◌, [], ◌++◌, List, not, Option, none, some, if◌then◌else◌, Bool-cases,
  inl, inr,
}
use imageboard.Text.{Bytes}
use imageboard.Paths.Kinds.{supported_media}
use imageboard.Index.Images.{File}
use imageboard.Index.Walk.{
  Node, folder, regular, link, special, Nodes, nil, cons, Scanner, Scan, safe_parts, too_deep,
  error_seen, found, file_at, visit_file, walk, walk_all, unless_stopped, Stop,
}

-- The media files of a tree that a scan is to index, and the entries that it cannot read.
module _ (w : Scanner) where
  abbrev pub if_listed : List Bytes → Bytes → Option ℕ → List File
  if_listed parts name none = []
  if_listed parts name (some size) = file_at parts name size ∷ []

  abbrev unread : Option ℕ → ℕ
  unread none = 1
  unread (some _) = 0

  unfoldable mutual
    pub media_files : List Bytes → ℕ → Node → List File
    media_files parts depth (folder name readable entries) =
        if not (safe_parts (parts ++ name ∷ []))
        then []
        else if too_deep w.max_depth depth
        then []
        else if readable
        then media_files_all (parts ++ name ∷ []) (suc depth) entries
        else []
    media_files parts depth (regular name size) =
        if not (safe_parts (parts ++ name ∷ []))
        then []
        else if not (supported_media w.lower name)
        then []
        else if_listed (parts ++ name ∷ []) name size
    media_files parts depth (link name) = []
    media_files parts depth (special name) = []

    pub media_files_all : List Bytes → ℕ → Nodes → List File
    media_files_all parts depth nil = []
    media_files_all parts depth (cons node rest) =
        media_files parts depth node ++ media_files_all parts depth rest

  unfoldable mutual
    pub unreadable : List Bytes → ℕ → Node → ℕ
    unreadable parts depth (folder name readable entries) =
        if not (safe_parts (parts ++ name ∷ []))
        then 0
        else if too_deep w.max_depth depth
        then 0
        else if readable
        then unreadable_all (parts ++ name ∷ []) (suc depth) entries
        else 1
    unreadable parts depth (regular name size) =
        if not (safe_parts (parts ++ name ∷ []))
        then 0
        else if not (supported_media w.lower name)
        then 0
        else unread size
    unreadable parts depth (link name) = 0
    unreadable parts depth (special name) = 0

    pub unreadable_all : List Bytes → ℕ → Nodes → ℕ
    unreadable_all parts depth nil = 0
    unreadable_all parts depth (cons node rest) =
        unreadable parts depth node + unreadable_all parts depth rest

-- What holds of each part of a walk, given the files and the unreadable entries of that part: of
-- none, of one after the other, of an entry that cannot be read, of a file, and of a walk that has
-- stopped.
pub record Follows (w : Scanner) (P : List File → ℕ → Scan → Scan → Type 0) : Type 0 where
  pub nothing : (s : Scan) → P [] 0 s s
  pub one_more :
      {files files' : List File} {errors errors' : ℕ} {s s' s'' : Scan}
      → P files errors s s'
      → P files' errors' s' s''
      → P (files ++ files') (errors + errors') s s''
  pub error : (s : Scan) → s.stopped ≡ none → P [] 1 s (error_seen s)
  pub file : (f : File) (s : Scan) → s.stopped ≡ none → P (f ∷ []) 0 s (found w f s)
  pub stopped :
      (files : List File) (errors : ℕ) (s : Scan) (stop : Stop)
      → s.stopped ≡ some stop
      → P files errors s s

pub unless_stopped_cases :
    (P : Scan → Type 0) (stopped : Option Stop) (s rest : Scan)
    → ((stop : Stop) → stopped ≡ some stop → P s)
    → (stopped ≡ none → P rest)
    → P (unless_stopped stopped s rest)
unfolding unless_stopped
unless_stopped_cases P none s rest f h = h refl
unless_stopped_cases P (some stop) s rest f h = f stop refl

module _ (w : Scanner) (P : List File → ℕ → Scan → Scan → Type 0) (follows : Follows w P) where
  visit_file_follows :
      (parts : List Bytes) (name : Bytes) (size : Option ℕ) (s : Scan)
      → s.stopped ≡ none
      → P (if_listed w parts name size) (unread w size) s (visit_file w parts name size s)
  unfolding visit_file
  visit_file_follows parts name none s h = follows.error s h
  visit_file_follows parts name (some size) s h = follows.file (file_at parts name size) s h

  mutual
    unfolding walk walk_all media_files media_files_all unreadable unreadable_all

    pub walk_follows :
        (parts : List Bytes) (depth : ℕ) (node : Node) (s : Scan)
        → s.stopped ≡ none
        → P
            (media_files w parts depth node)
            (unreadable w parts depth node)
            s
            (walk w parts depth node s)
    walk_follows parts depth (folder name readable entries) s h =
        elim (Bool-cases (safe_parts (parts ++ name ∷ []))) [
          | inr q ↦ rw (q, walk, media_files, unreadable) (follows.nothing s)
          | inl q ↦ elim (Bool-cases (too_deep w.max_depth depth)) [
            | inl p ↦ rw (q, p, walk, media_files, unreadable) (follows.nothing s)
            | inr p ↦ elim (Bool-cases readable) [
              | inl r ↦
                  rw (q, p, r, walk, media_files, unreadable)
                    (walk_all_follows (parts ++ name ∷ []) (suc depth) entries s)
              | inr r ↦ rw (q, p, r, walk, media_files, unreadable) (follows.error s h)
            ]
          ]
        ]
    walk_follows parts depth (regular name size) s h =
        elim (Bool-cases (safe_parts (parts ++ name ∷ []))) [
          | inr q ↦ rw (q, walk, media_files, unreadable) (follows.nothing s)
          | inl q ↦ elim (Bool-cases (supported_media w.lower name)) [
            | inr p ↦ rw (q, p, walk, media_files, unreadable) (follows.nothing s)
            | inl p ↦
                rw (q, p, walk, media_files, unreadable)
                  (visit_file_follows (parts ++ name ∷ []) name size s h)
          ]
        ]
    walk_follows parts depth (link name) s h = follows.nothing s
    walk_follows parts depth (special name) s h = follows.nothing s

    pub walk_all_follows :
        (parts : List Bytes) (depth : ℕ) (nodes : Nodes) (s : Scan)
        → P
            (media_files_all w parts depth nodes)
            (unreadable_all w parts depth nodes)
            s
            (walk_all w parts depth nodes s)
    walk_all_follows parts depth nil s = follows.nothing s
    walk_all_follows parts depth (cons node rest) s =
        unless_stopped_cases
          (P (media_files_all w parts depth (cons node rest))
            (unreadable_all w parts depth (cons node rest)) s)
          s.stopped s (walk_all w parts depth rest (walk w parts depth node s))
          (follows.stopped (media_files_all w parts depth (cons node rest))
            (unreadable_all w parts depth (cons node rest)) s)
          (λ h.
            follows.one_more (walk_follows parts depth node s h)
              (walk_all_follows parts depth rest (walk w parts depth node s)))
