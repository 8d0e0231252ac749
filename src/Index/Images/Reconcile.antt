-- ===== src/Index/Images/Reconcile.antt =====
-- A scan that is complete, index_worker/cmd/index-worker/main.go: `upsertBatch` and `deindexStale`.
pub mod Rows
use imageboard.Base.{
  ℕ, ◌+◌, ◌≡◌, refl, ◌∷◌, [], ◌++◌, List, Bool, true, false, ◌&&◌, ◌||◌, not, ◌==◌, arith, Option,
  none, some, if◌then◌else◌, inl, inr, Bool-cases, Option-cases, length,
}
use imageboard.Text.{Bytes, bytes_eq, bytes_eq_iff, All}
use imageboard.Index.Jobs.{Counters}
use imageboard.Index.Images.{
  Image, File, find_image, stamp, upsert, upsert_all, delete_if, deindex_stale, is_stale, in_scope,
  count_file, count_files, upsert_batch,
}
use imageboard.Index.Images.Like.{
  IsPlain, is_under, in_scope-is_under, in_scope_underscore, not_under,
}
use imageboard.Index.Images.Reconcile.Rows.{
  path_taken, UniquePaths, IsFresh, is_found, listed, unless_deleted, absent, delete_if_absent,
  find_image-delete_if, find_image-path, fresh_row, listed_under, upsert_all-UniquePaths,
  upsert_all_unlisted, upsert_all_marked,
}

-- The table after a scan that is complete: `upsertBatch` for its files, then `deindexStale`.
unfoldable pub after_scan : ℕ → Option ℕ → Bytes → List File → List Image → List Image
after_scan job by root files images = deindex_stale job root (upsert_all job by files images)

module _ (job : ℕ) (by : Option ℕ) (root : Bytes) (files : List File) (images : List Image)
    (plain : IsPlain root) (unique : UniquePaths images) (path : Bytes) where
  abbrev updated_images : List Image
  updated_images = upsert_all job by files images

  after_scan-found :
      find_image path (after_scan job by root files images)
      ≡ unless_deleted
          (λ i. is_stale job i.last_job && in_scope root i.path)
          (find_image path updated_images)
  unfolding after_scan deindex_stale
  after_scan-found =
      find_image-delete_if _ path updated_images (upsert_all-UniquePaths job by files images unique)

  -- Below the root, exactly the paths of the files have a row after the scan.
  after_scan_inside :
      IsFresh job images
      → is_under root path ≡ true
      → is_found (find_image path (after_scan job by root files images)) ≡ listed path files
  after_scan_inside fresh under = elim (Option-cases (find_image path images)) [
    | inl e ↦ rw after_scan-found (elim (Option-cases (find_image path updated_images)) [
      | inl gone ↦ ground (
        arith,
        upsert_all_marked job by path files images,
        upsert_all_unlisted job by path files images,
      )
      | inr (i, f) ↦ ground (
        arith,
        upsert_all_marked job by path files images,
        upsert_all_unlisted job by path files images,
        find_image-path path updated_images i f,
      )
    ])
    | inr (o, e) ↦ rw after_scan-found (elim (Option-cases (find_image path updated_images)) [
      | inl gone ↦ ground (
        arith,
        upsert_all_marked job by path files images,
        upsert_all_unlisted job by path files images,
      )
      | inr (i, f) ↦ ground (
        arith,
        upsert_all_marked job by path files images,
        upsert_all_unlisted job by path files images,
        find_image-path path updated_images i f,
        fresh_row job path images o fresh e,
        in_scope-is_under root path plain,
      )
    ])
  ]

  -- Elsewhere every row is as it was.
  after_scan_outside :
      All (λ f. is_under root f.path ≡ true) files
      → is_under root path ≡ false
      → find_image path (after_scan job by root files images) ≡ find_image path images
  after_scan_outside inside out =
      rw after_scan-found (elim (Option-cases (find_image path updated_images)) [
        | inl gone ↦ ground (
          arith,
          upsert_all_unlisted job by path files images,
          listed_under root path files inside,
        )
        | inr (i, f) ↦ ground (
          arith,
          upsert_all_unlisted job by path files images,
          listed_under root path files inside,
          find_image-path path updated_images i f,
          in_scope-is_under root path plain,
        )
      ])

-- A complete scan, with a root of plain characters, files that lie below it, unique paths in the
-- table and no row that bears the job's mark: below the root exactly the files' paths have a row
-- afterwards, and every other row is as it was.
pub scan_reconciles :
    (job : ℕ) (by : Option ℕ) (root : Bytes) (files : List File) (images : List Image)
    → IsPlain root
    → UniquePaths images
    → IsFresh job images
    → All (λ f. is_under root f.path ≡ true) files
    → (path : Bytes)
    → let after = after_scan job by root files images in
      (is_under root path ≡ true → is_found (find_image path after) ≡ listed path files)
      × (is_under root path ≡ false → find_image path after ≡ find_image path images)
scan_reconciles job by root files images plain unique fresh inside path = (
  after_scan_inside job by root files images plain unique path fresh,
  after_scan_outside job by root files images plain unique path inside,
)

-- For a root a_b, a scan deletes every row with no mark of the job whose path is below acb, where c
-- is any character but `_`: a path that is not below the root, and of which the scan sees no file.
pub deindex_stale_underscore :
    (job : ℕ) (a b rest : Bytes) (c : ℕ) (images : List Image) (i : Image)
    → IsPlain a
    → IsPlain b
    → (c == b'_') ≡ false
    → UniquePaths images
    → find_image (a ++ c ∷ (b ++ b'$' ∷ rest)) images ≡ some i
    → is_stale job i.last_job ≡ true
    → (is_under (a ++ b'_' ∷ b) (a ++ c ∷ (b ++ b'$' ∷ rest)) ≡ false)
      × (find_image (a ++ c ∷ (b ++ b'$' ∷ rest)) (deindex_stale job (a ++ b'_' ∷ b) images) ≡ none)
unfolding deindex_stale
deindex_stale_underscore job a b rest c images i ha hb n u f s =
    let path : Bytes = a ++ c ∷ (b ++ b'$' ∷ rest) in
    (
      not_under a b rest c n,
      rw (find_image-delete_if _ path images u, f)
          (ground (arith, in_scope_underscore a b rest c ha hb, find_image-path path images i f)),
    )
