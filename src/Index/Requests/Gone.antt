-- ===== src/Index/Requests/Gone.antt =====
-- An image whose file is gone, from the request for it to the job of the worker:
-- go_api/cmd/api/handlers.go `getImageFile`, index_worker/cmd/index-worker/main.go `process`.
use imageboard.Base.{
  ℕ, ◌≡◌, refl, ap, ◌∙◌, ◌∷◌, [], ◌++◌, List, map, Bool, true, false, Option, none, some,
  if◌then◌else◌, arith, Bool-cases, inl, inr,
}
use imageboard.Text.{Bytes, is_nil, bytes_eq}
use imageboard.Paths.{canonical_path}
use imageboard.Gallery.{path_id}
use imageboard.Index.Jobs.{Job, Counters, no_counts, active_job, enqueue_job, new_job, succeed}
use imageboard.Index.Images.{Image, find_image, in_scope, delete_if, deindex_missing_scope}
use imageboard.Index.Walk.{Scanner, safe_parts}
use imageboard.Index.Walk.Process.{
  World, made, missing, finished, root_parts, job_root, process, process_root, scan_missing,
  deleted,
}
use imageboard.Index.Walk.Refines.{indexed}
use imageboard.Index.Requests.{
  Trouble, refused, Library, path_at, enqueue, open_image, open_path, get_image_file,
}

-- A row of the scope is deleted.
delete_if_scope :
    (root : Bytes) (images : List Image)
    → find_image root (delete_if (λ i. in_scope root i.path) images) ≡ none
unfolding find_image delete_if in_scope
delete_if_scope root [] = refl
delete_if_scope root (i ∷ images) = elim (Bool-cases (bytes_eq i.path root)) [
  | inl q ↦ ground (arith, q, delete_if_scope root images)
  | inr q ↦ ground (arith, q, delete_if_scope root images)
]

canonical_safe :
    (path : Bytes)
    → is_nil path ≡ false
    → canonical_path path true ≡ some path
    → safe_parts (root_parts path) ≡ true
unfolding canonical_path safe_parts root_parts
canonical_safe path n c = ground (arith, n, c)

job_root_found :
    (world : World) (path : Bytes)
    → safe_parts (root_parts path) ≡ true
    → world.located ≡ true
    → job_root world path ≡ some (root_parts path)
unfolding job_root
job_root_found world path h located = rw (h, located) refl

scan_missing_removes :
    (world : World) (path : Bytes) (images : List Image)
    → is_nil path ≡ false
    → world.deletes ≡ made
    → (counts : Counters) × ((scan_missing world path images).0 ≡ finished succeed none counts)
      × (indexed (scan_missing world path images).1 path ≡ false)
unfolding scan_missing deindex_missing_scope indexed
scan_missing_removes world path images n d = (
  record no_counts { deindexed = deleted images (deindex_missing_scope path images) },
  rw (n, d) refl,
  rw (n, d, delete_if_scope path images) refl,
)

enqueue_free :
    (t : Trouble) (user : ℕ) (path : Bytes) (max_depth : Option ℕ) (jobs : List Job)
    → t.insert_fails ≡ false
    → active_job jobs ≡ none
    → canonical_path path true ≡ some path
    → enqueue t user path max_depth jobs
      ≡ (some (new_job t.id path max_depth user), jobs ++ new_job t.id path max_depth user ∷ [])
unfolding enqueue enqueue_job
enqueue_free t user path max_depth jobs i a c = rw (c, i, a) refl

process_missing :
    (w : Scanner) (world : World) (path : Bytes) (images : List Image)
    → safe_parts (root_parts path) ≡ true
    → world.located ≡ true
    → process w world path missing images ≡ scan_missing world path images
unfolding process process_root
process_missing w world path images safe located =
    rw (job_root_found world path safe located, process) refl

open_gone :
    (exists : Bytes → Bool) (media_url : Bytes) (t : Trouble) (user id : ℕ) (path : Bytes)
    (l : Library)
    → path_at id l.rows ≡ some path
    → exists path ≡ false
    → canonical_path path true ≡ some path
    → active_job l.jobs ≡ none
    → t.select_fails ≡ false
    → t.insert_fails ≡ false
    → open_image exists media_url t user (some id) l
      ≡ (refused 404, record l { jobs = l.jobs ++ new_job t.id path (some 0) user ∷ [] })
open_gone exists media_url t user id path l p gone c a select insert =
    ap
      (λ b.
        if b then (refused 500, l) else open_path exists media_url t user id (path_at id l.rows) l)
      select
    ∙ ap (λ o. open_path exists media_url t user id o l) p
    ∙ rw gone (
        ap (λ r. (refused 404, record l { jobs = r.1 }))
          (enqueue_free t user path (some 0) l.jobs insert a c))

-- The media file of an image, under a canonical path, is gone, the API's queries work and no job
-- waits or runs: the request for the file is refused with 404 and queues a job for that path. If
-- such a job is then run while the path is still missing, its root is found to lie below the media
-- root and its deletion is made without an error, it succeeds and leaves the index without the path.
pub get_image_file-process :
    (exists : Bytes → Bool) (media_url : Bytes) (t : Trouble) (user id : ℕ) (id_text path : Bytes)
    (l : Library) (w : Scanner) (world : World)
    → path_id id_text ≡ some id
    → path_at id l.rows ≡ some path
    → exists path ≡ false
    → is_nil path ≡ false
    → canonical_path path true ≡ some path
    → active_job l.jobs ≡ none
    → t.select_fails ≡ false
    → t.insert_fails ≡ false
    → world.located ≡ true
    → world.deletes ≡ made
    → let (reply, l') = get_image_file exists media_url t user id_text l in
      let (ending, images') = process w world path missing (map (λ r. r.image) l'.rows) in
      (reply ≡ refused 404)
      × (l'.jobs ≡ l.jobs ++ new_job t.id path (some 0) user ∷ [])
      × ((counts : Counters) × (ending ≡ finished succeed none counts))
      × (indexed images' path ≡ false)
unfolding get_image_file
get_image_file-process exists media_url t user id id_text path l w world i p gone n c a select
      insert located deletes =
    let run : get_image_file exists media_url t user id_text l
        ≡ (refused 404, record l { jobs = l.jobs ++ new_job t.id path (some 0) user ∷ [] }) =
      ap (λ o. open_image exists media_url t user o l) i
      ∙ open_gone exists media_url t user id path l p gone c a select insert in
    let images : List Image = map (λ r. r.image) l.rows in
    let done : process w world path missing
          (map (λ r. r.image) (get_image_file exists media_url t user id_text l).1.rows)
        ≡ scan_missing world path images =
      ap (λ r. process w world path missing (map (λ x. x.image) r.1.rows)) run
      ∙ process_missing w world path images (canonical_safe path n c) located in
    let (counts, ends, removed) = scan_missing_removes world path images n deletes in
    (
      ap (λ r. r.0) run,
      ap (λ r. r.1.jobs) run,
      (counts, ap (λ r. r.0) done ∙ ends),
      ap (λ r. indexed r.1 path) done ∙ removed,
    )
