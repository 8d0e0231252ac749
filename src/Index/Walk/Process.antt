-- ===== src/Index/Walk/Process.antt =====
-- `process` of index_worker/cmd/index-worker/main.go, from the claimed job to its call of `finish`.
-- Nobody else writes the image table meanwhile.
use imageboard.Base.{
  ℕ, ◌-◌, [], List, Bool, true, false, ◌&&◌, ◌||◌, not, Option, none, some, if◌then◌else◌, length,
  String,
}
use imageboard.Text.{Bytes, is_nil, split}
use imageboard.Paths.Kinds.{supported_media}
use imageboard.Index.Jobs.{Counters, no_counts, Outcome, succeed, fail, cancel}
use imageboard.Index.Images.{Image, deindex_stale, deindex_missing_scope}
use imageboard.Index.Walk.{
  Nodes, Scanner, Scan, Stop, failed, left, safe_parts, flush, error_seen, add_file, walk_all,
  unless_stopped,
}

-- What `os.Lstat` says of the job's root; a file with its base name.
pub data Root : Type 0 where
  missing unavailable linked other : Root
  directory : Bool → Nodes → Root
  file : Bytes → ℕ → Root

-- What becomes of a deletion: it is made or not, and an error may hide that it was made.
pub data Deletion : Type 0 where
  not_made unheard made : Deletion

-- What the rest of the world does: is the root's absolute path below the media root's real one,
-- does the query say that the job is cancelled (or fail), and what becomes of the deletion?
pub record World : Type 0 where
  pub located : Bool
  pub cancelled : Bool
  pub deletes : Deletion

-- `process` calls `finish`, or leaves the job to who has it now.
pub data Ending : Type 0 where
  finished : Outcome → Option String → Counters → Ending
  abandoned : Ending

-- `jobRoot`
unfoldable pub root_parts : Bytes → List Bytes
root_parts root_path = if is_nil root_path then [] else split b'$' root_path

unfoldable pub job_root : World → Bytes → Option (List Bytes)
unfolding root_parts
job_root world root_path =
    if safe_parts (root_parts root_path) && world.located then some (root_parts root_path) else none

unfoldable pub start_scan : List Image → Scan
start_scan images = record {
  batch = [];
  counts = no_counts;
  complete = true;
  images = images;
  flushed = 0;
  stopped = none;
}

-- The walk, or the job's single file.
unfoldable pub scan_root : Scanner → Bytes → List Bytes → Root → Scan → Scan
scan_root w root_path parts (directory true entries) s = walk_all w parts 0 entries s
scan_root w root_path parts (directory false entries) s = error_seen s
scan_root w root_path parts (file name size) s =
    if supported_media w.lower name
    then add_file (record { path = root_path; name = name; size = size }) s
    else error_seen s
scan_root w root_path parts _ s = error_seen s

-- The rows that a deletion takes away.
abbrev pub deleted : List Image → List Image → ℕ
deleted before after = length before - length after

-- How a job ends with a deletion, that leaves the second table of the first.
abbrev pub end_deletion : Deletion → Counters → List Image → List Image → Ending × List Image
end_deletion not_made counts before after = (finished fail (some "database_error") counts, before)
end_deletion unheard counts before after = (finished fail (some "database_error") counts, after)
end_deletion made counts before after =
    (finished succeed none (record counts { deindexed = deleted before after }), after)

abbrev pub has_depth : Option ℕ → Bool
has_depth none = false
has_depth (some _) = true

-- `deindexStale`, if the scan is complete and unlimited, and the end.
unfoldable pub reconcile : Scanner → World → Bytes → Scan → Ending × List Image
reconcile w world root_path s =
    if not s.complete || has_depth w.max_depth
    then (finished succeed none s.counts, s.images)
    else end_deletion world.deletes s.counts s.images (deindex_stale w.job root_path s.images)

abbrev pub stopped_ending : Stop → Counters → Ending
stopped_ending failed counts = finished fail (some "database_error") counts
stopped_ending left counts = abandoned

abbrev pub end_unless_stopped : Option Stop → Scanner → World → Bytes → Scan → Ending × List Image
end_unless_stopped (some stop) w world root_path s = (stopped_ending stop s.counts, s.images)
end_unless_stopped none w world root_path s =
    if world.cancelled
    then (finished cancel none s.counts, s.images)
    else reconcile w world root_path s

-- The part of `process` behind the last flush.
unfoldable pub end_scan : Scanner → World → Bytes → Scan → Ending × List Image
unfolding reconcile
end_scan w world root_path s = end_unless_stopped s.stopped w world root_path s

-- The last flush, unless the walk has stopped.
unfoldable pub last_flush : Scanner → Scan → Scan
last_flush w s = unless_stopped s.stopped s (flush w s)

unfoldable pub scan : Scanner → World → Bytes → List Bytes → Root → List Image → Ending × List Image
unfolding last_flush scan_root start_scan end_scan
scan w world root_path parts root images =
    end_scan w world root_path (last_flush w (scan_root w root_path parts root (start_scan images)))

-- A root that is gone, other than the media root, has its rows deleted.
unfoldable pub scan_missing : World → Bytes → List Image → Ending × List Image
scan_missing world root_path images =
    if is_nil root_path
    then (finished fail (some "media_root_unavailable") (record no_counts { errors = 1 }), images)
    else end_deletion world.deletes no_counts images (deindex_missing_scope root_path images)

unfoldable pub process_root :
    Scanner → World → Bytes → List Bytes → Root → List Image → Ending × List Image
unfolding scan scan_missing
process_root w world root_path parts missing images = scan_missing world root_path images
process_root w world root_path parts unavailable images =
    (finished fail (some "media_root_unavailable") (record no_counts { errors = 1 }), images)
process_root w world root_path parts linked images =
    (finished fail (some "invalid_root") no_counts, images)
process_root w world root_path parts root images = scan w world root_path parts root images

-- `process`: how the job ends, and the image table.
unfoldable pub process : Scanner → World → Bytes → Root → List Image → Ending × List Image
unfolding job_root process_root
process w world root_path root images = elim (job_root world root_path) [
  | none ↦ (finished fail (some "invalid_root") no_counts, images)
  | some parts ↦ process_root w world root_path parts root images
]
