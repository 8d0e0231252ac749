-- ===== src/Index/Images/Reconcile/Rows.antt =====
-- The rows of the image table after an upsert and after a deletion, and where a path is found.
use imageboard.Base.{
  ℕ, ◌≡◌, refl, ◌∷◌, [], List, Bool, true, false, ◌||◌, not, arith, Option, none, some,
  if◌then◌else◌, inl, inr, Bool-cases,
}
use imageboard.Text.{Bytes, bytes_eq, bytes_eq_iff, All}
use imageboard.Index.Images.{
  Image, File, find_image, stamp, upsert, upsert_all, delete_if, is_stale,
}
use imageboard.Index.Images.Like.{is_under}

unfoldable pub path_taken : Bytes → List Image → Bool
path_taken path [] = false
path_taken path (i ∷ rest) = bytes_eq i.path path || path_taken path rest

-- `image_path` is unique.
abbrev pub UniquePaths : List Image → Type 0
UniquePaths [] = Unit
UniquePaths (i ∷ rest) = (path_taken i.path rest ≡ false) × UniquePaths rest

-- No row bears the job's mark yet.
abbrev pub IsFresh : ℕ → List Image → Type 0
IsFresh job = All (λ i. is_stale job i.last_job ≡ true)

abbrev pub is_found : Option Image → Bool
is_found none = false
is_found (some _) = true

-- Is a file of this path among the files?
unfoldable pub listed : Bytes → List File → Bool
listed path [] = false
listed path (f ∷ files) = bytes_eq f.path path || listed path files

module _ (job : ℕ) (by : Option ℕ) where
  pub find_image-upsert :
      (path : Bytes) (f : File) (images : List Image)
      → find_image path (upsert job by f images) ≡ (
          if bytes_eq f.path path
          then some (stamp job by f (find_image f.path images))
          else find_image path images)
  unfolding find_image upsert
  find_image-upsert path f [] = refl
  find_image-upsert path f (i ∷ images) = ground (
    arith,
    find_image-upsert path f images,
    bytes_eq_iff i.path f.path,
    bytes_eq_iff f.path path,
    bytes_eq_iff i.path path,
  )

  path_taken-upsert :
      (path : Bytes) (f : File) (images : List Image)
      → path_taken path (upsert job by f images) ≡ (path_taken path images || bytes_eq f.path path)
  unfolding path_taken upsert
  path_taken-upsert path f [] = ground arith
  path_taken-upsert path f (i ∷ images) =
      ground (arith, path_taken-upsert path f images, bytes_eq_iff i.path f.path)

  upsert-UniquePaths :
      (f : File) (images : List Image) → UniquePaths images → UniquePaths (upsert job by f images)
  unfolding upsert
  upsert-UniquePaths f [] u = (unfold path_taken in refl, tt)
  upsert-UniquePaths f (i ∷ images) u = ground (
    arith,
    path_taken-upsert i.path f images,
    upsert-UniquePaths f images u.1,
    bytes_eq_iff i.path f.path,
    bytes_eq_iff f.path i.path,
  )

  pub upsert_all-UniquePaths :
      (files : List File) (images : List Image)
      → UniquePaths images
      → UniquePaths (upsert_all job by files images)
  unfolding upsert_all
  upsert_all-UniquePaths [] images u = u
  upsert_all-UniquePaths (f ∷ files) images u =
      upsert_all-UniquePaths files (upsert job by f images) (upsert-UniquePaths f images u)

  -- A path that is no file's keeps its row.
  pub upsert_all_unlisted :
      (path : Bytes) (files : List File) (images : List Image)
      → listed path files ≡ false
      → find_image path (upsert_all job by files images) ≡ find_image path images
  unfolding upsert_all listed
  upsert_all_unlisted path [] images h = refl
  upsert_all_unlisted path (f ∷ files) images h = ground (
    arith,
    upsert_all_unlisted path files (upsert job by f images),
    find_image-upsert path f images,
  )

  stamp_marks : (f : File) (o : Option Image) → is_stale job (stamp job by f o).last_job ≡ false
  unfolding stamp
  stamp_marks f none = ground arith
  stamp_marks f (some old) = ground arith

  abbrev is_marked : Option Image → Bool
  is_marked none = false
  is_marked (some i) = not (is_stale job i.last_job)

  -- A file's path has a row with the job's mark.
  pub upsert_all_marked :
      (path : Bytes) (files : List File) (images : List Image)
      → (listed path files || is_marked (find_image path images)) ≡ true
      → is_marked (find_image path (upsert_all job by files images)) ≡ true
  unfolding upsert_all listed
  upsert_all_marked path [] images h = ground arith
  upsert_all_marked path (f ∷ files) images h = ground (
    arith,
    upsert_all_marked path files (upsert job by f images),
    find_image-upsert path f images,
    stamp_marks f (find_image f.path images),
  )

pub absent :
    (path : Bytes) (images : List Image)
    → path_taken path images ≡ false
    → find_image path images ≡ none
unfolding path_taken find_image
absent path [] h = refl
absent path (i ∷ images) h = ground (arith, absent path images)

abbrev pub unless_deleted : (Image → Bool) → Option Image → Option Image
unless_deleted p none = none
unless_deleted p (some i) = if p i then none else some i

pub delete_if_absent :
    (p : Image → Bool) (path : Bytes) (images : List Image)
    → find_image path images ≡ none
    → find_image path (delete_if p images) ≡ none
unfolding find_image delete_if
delete_if_absent p path [] h = refl
delete_if_absent p path (i ∷ images) h = ground (arith, delete_if_absent p path images)

pub find_image-delete_if :
    (p : Image → Bool) (path : Bytes) (images : List Image)
    → UniquePaths images
    → find_image path (delete_if p images) ≡ unless_deleted p (find_image path images)
unfolding find_image delete_if
find_image-delete_if p path [] u = refl
find_image-delete_if p path (i ∷ images) u = ground (
  arith,
  find_image-delete_if p path images u.1,
  delete_if_absent p path images,
  absent path images,
  bytes_eq_iff i.path path,
)

pub find_image-path :
    (path : Bytes) (images : List Image) (i : Image)
    → find_image path images ≡ some i
    → i.path ≡ path
unfolding find_image
find_image-path path [] i f = ground arith
find_image-path path (x ∷ images) i f =
    ground (arith, find_image-path path images i, bytes_eq_iff x.path path)

pub fresh_row :
    (job : ℕ) (path : Bytes) (images : List Image) (i : Image)
    → IsFresh job images
    → find_image path images ≡ some i
    → is_stale job i.last_job ≡ true
unfolding find_image
fresh_row job path [] i h f = ground arith
fresh_row job path (x ∷ images) i h f = ground (arith, fresh_row job path images i h.1)

pub listed_under :
    (root path : Bytes) (files : List File)
    → All (λ f. is_under root f.path ≡ true) files
    → listed path files ≡ true
    → is_under root path ≡ true
unfolding listed
listed_under root path [] a h = ground arith
listed_under root path (f ∷ files) a h = elim (Bool-cases (bytes_eq f.path path)) [
  | inl e ↦ rw (← (bytes_eq_iff f.path path).0 e) a.0
  | inr n ↦ listed_under root path files a.1 (ground arith)
]
