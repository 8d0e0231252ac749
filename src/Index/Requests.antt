-- ===== src/Index/Requests.antt =====
-- The requests that queue jobs of the index worker, go_api/cmd/api/handlers.go: `enqueueSingle`,
-- `enqueueTree`, `createJob`, `enqueueJob`, `cancelJob`, `getJob` and `getImageFile`.
pub mod Gone
mod Tests
use imageboard.Base.{
  ℕ, ◌+◌, ◌∷◌, [], ◌++◌, List, Bool, true, false, ◌&&◌, ◌||◌, not, Option, none, some, ltb, ◌==◌,
  if◌then◌else◌,
}
use imageboard.Text.{Bytes, codes, is_nil, split, Signed}
use imageboard.Paths.{canonical_path, encoded_path}
use imageboard.Paths.Kinds.{supported_media}
use imageboard.Gallery.{path_id}
use imageboard.Index.Images.{Image}
use imageboard.Index.Jobs.{Job, active_job, enqueue_job, cancel_job, find_job}

-- What the database fails, and the new uuid.
pub record Trouble : Type 0 where
  pub insert_fails : Bool
  pub select_fails : Bool
  pub update_fails : Bool
  pub hit_fails : Bool
  pub id : ℕ

-- `activeJob`, where the unique index has refused the new job.
abbrev pub or_active :
    Trouble → Option Job → Option Job × List Job → List Job → Option Job × List Job
or_active t none enqueued jobs = enqueued
or_active t (some active) enqueued jobs = if t.select_fails then (none, jobs) else enqueued

abbrev pub enqueue_canonical :
    Trouble → ℕ → Option Bytes → Option ℕ → List Job → Option Job × List Job
enqueue_canonical t user none max_depth jobs = (none, jobs)
enqueue_canonical t user (some path) max_depth jobs =
    if t.insert_fails
    then (none, jobs)
    else or_active t (active_job jobs) (enqueue_job t.id path max_depth user jobs) jobs

-- `enqueueJob`
unfoldable pub enqueue : Trouble → ℕ → Bytes → Option ℕ → List Job → Option Job × List Job
enqueue t user path max_depth jobs =
    enqueue_canonical t user (canonical_path path true) max_depth jobs

pub data Reply : Type 0 where
  refused : ℕ → Reply
  job_reply : ℕ → Job → Reply
  redirected : Bytes → Reply

abbrev pub accepted : ℕ → Option Job × List Job → Reply × List Job
accepted status (none, jobs) = (refused status, jobs)
accepted status (some job, jobs) = (job_reply 202 job, jobs)

-- `filepath.Base`
strip_slashes : Bytes → Bytes
strip_slashes [] = []
strip_slashes (c ∷ s) =
    let rest = strip_slashes s in if (c == b'/') && is_nil rest then [] else c ∷ rest

last_of : List Bytes → Bytes
last_of [] = []
last_of (p ∷ []) = p
last_of (p ∷ q ∷ r) = last_of (q ∷ r)

unfoldable pub base : Bytes → Bytes
unfolding strip_slashes last_of
base path =
    if is_nil path
    then codes "."
    else if is_nil (strip_slashes path)
    then codes "/"
    else last_of (split b'/' (strip_slashes path))

-- For each of these, the body as far as it can be read.
unfoldable pub enqueue_single :
    (Bytes → Bytes) → Trouble → ℕ → Option Bytes → List Job → Reply × List Job
unfolding enqueue base
enqueue_single lower t user none jobs = (refused 422, jobs)
enqueue_single lower t user (some path) jobs =
    if not (supported_media lower (base path))
    then (refused 415, jobs)
    else accepted 400 (enqueue t user path (some 0) jobs)

unfoldable pub enqueue_tree : Trouble → ℕ → List Job → Reply × List Job
unfolding enqueue
enqueue_tree t user jobs = accepted 500 (enqueue t user [] none jobs)

-- `max_depth` of the body is an int32.
abbrev pub is_bad_depth : Option Signed → Bool
is_bad_depth none = false
is_bad_depth (some (negative, n)) = negative && not (n == 0) || ltb 128 n

abbrev pub depth_of : Option Signed → Option ℕ
depth_of none = none
depth_of (some (negative, n)) = some n

unfoldable pub create_job :
    Trouble → ℕ → Option (Bytes × Option Signed) → List Job → Reply × List Job
unfolding enqueue
create_job t user none jobs = (refused 422, jobs)
create_job t user (some (path, max_depth)) jobs =
    if is_bad_depth max_depth
    then (refused 422, jobs)
    else accepted 400 (enqueue t user path (depth_of max_depth) jobs)

abbrev pub job_or : ℕ → Option Job → Reply
job_or status none = refused status
job_or status (some job) = job_reply 200 job

-- The id is `none` if it is no uuid, which the database refuses.
unfoldable pub get_job : Trouble → Option ℕ → List Job → Reply
unfolding find_job
get_job t none jobs = refused 500
get_job t (some id) jobs = if t.select_fails then refused 500 else job_or 404 (find_job id jobs)

unfoldable pub cancel_request : Trouble → ℕ → Option ℕ → List Job → Reply × List Job
unfolding find_job cancel_job
cancel_request t now none jobs = (refused 404, jobs)
cancel_request t now (some id) jobs = if t.update_fails then (refused 404, jobs) else (
  if t.select_fails then refused 404 else job_or 404 (find_job id (cancel_job id now jobs)),
  cancel_job id now jobs,
)

-- A row of the table image with its id.
pub record Row : Type 0 where
  pub id : ℕ
  pub image : Image

-- The images, the jobs, and which images which users have opened (image_hits).
pub record Library : Type 0 where
  pub rows : List Row
  pub jobs : List Job
  pub hits : List (ℕ × ℕ)

unfoldable pub path_at : ℕ → List Row → Option Bytes
path_at id [] = none
path_at id (r ∷ rest) = if r.id == id then some r.image.path else path_at id rest

unfoldable pub count_hit : ℕ → List Row → List Row
count_hit id [] = []
count_hit id (r ∷ rest) =
    (if r.id == id then record r { image = record r.image { hits = r.image.hits + 1 } } else r)
    ∷ count_hit id rest

-- `mediaPath`, where `media_url` is that of the configuration.
unfoldable pub media_link : Bytes → Bytes → Bytes
unfolding strip_slashes
media_link media_url path = strip_slashes media_url ++ b'/' ∷ encoded_path path

abbrev pub open_path :
    (Bytes → Bool) → Bytes → Trouble → ℕ → ℕ → Option Bytes → Library → Reply × Library
open_path exists media_url t user id none l = (refused 404, l)
open_path exists media_url t user id (some path) l =
    if not (exists path)
    then (refused 404, record l { jobs = (enqueue t user path (some 0) l.jobs).1 })
    else if t.update_fails
    then (refused 500, l)
    else (
      redirected (media_link media_url path),
      record l {
        rows = count_hit id l.rows;
        hits = if t.hit_fails then l.hits else l.hits ++ (id, user) ∷ [];
      },
    )

abbrev pub open_image : (Bytes → Bool) → Bytes → Trouble → ℕ → Option ℕ → Library → Reply × Library
open_image exists media_url t user none l = (refused 404, l)
open_image exists media_url t user (some id) l =
    if t.select_fails
    then (refused 500, l)
    else open_path exists media_url t user id (path_at id l.rows) l

-- `getImageFile`; `exists` is whether `existingPath` finds the path.
unfoldable pub get_image_file :
    (Bytes → Bool) → Bytes → Trouble → ℕ → Bytes → Library → Reply × Library
unfolding path_at count_hit media_link enqueue
get_image_file exists media_url t user id_text l =
    open_image exists media_url t user (path_id id_text) l
