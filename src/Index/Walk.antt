-- ===== src/Index/Walk.antt =====
-- The walk of the media tree, index_worker/cmd/index-worker/main.go: the function that `process`
-- hands to `filepath.WalkDir`, and `flush`. A folder lists what it holds in the order of the walk.
pub mod Process
pub mod Lists
pub mod Saved
pub mod Beneath
pub mod Refines
pub mod Linked
pub mod Keeps
mod Tests
use imageboard.Base.{
  ℕ, zero, suc, ◌+◌, ◌∷◌, [], ◌++◌, List, Bool, true, false, not, Option, none, some, leb,
  if◌then◌else◌, length,
}
use imageboard.Text.{Bytes, all_bool, join}
use imageboard.Paths.{safe_component}
use imageboard.Paths.Kinds.{supported_media}
use imageboard.Index.Jobs.{Counters}
use imageboard.Index.Images.{Image, File, count_files, upsert_all, upsert_batch}

-- What the walk finds: of a regular file its size, if it can be asked; of a folder its entries, if
-- they can be read.
mutual
  pub data Node : Type 0 where
    folder : Bytes → Bool → Nodes → Node
    regular : Bytes → Option ℕ → Node
    link special : Bytes → Node

  pub data Nodes : Type 0 where
    nil : Nodes
    cons : Node → Nodes → Nodes

-- How a batch ends: the transaction does not begin or its query fails; the insertion fails; the
-- commit fails, or it succeeds and its reply is lost; the rows are there and a renewal of the
-- lease fails; `progress` finds the lease lost; or all is well.
pub data Flush : Type 0 where
  not_begun not_written not_committed reply_lost lease_lost refused saved : Flush

-- The job, what the worker is configured for, and how its batches end, one after the other.
pub record Scanner : Type 0 where
  pub job : ℕ
  pub requested_by : Option ℕ
  pub max_depth : Option ℕ
  pub batch_size : ℕ
  pub lower : Bytes → Bytes
  pub flushes : ℕ → Flush

-- The end of a walk that stops: the job was finished as failed, or was left alone.
pub data Stop : Type 0 where
  failed left : Stop

pub record Scan : Type 0 where
  pub batch : List File
  pub counts : Counters
  pub complete : Bool
  pub images : List Image
  pub flushed : ℕ
  pub stopped : Option Stop

unfoldable pub safe_parts : List Bytes → Bool
safe_parts parts = all_bool safe_component parts

-- The batch as it was before, and the counters and rows as they are now.
abbrev pub after_flush : Option Stop → Counters × List Image → Scan → Scan
after_flush stopped (counts, images) s = record s {
  counts = counts;
  images = images;
  flushed = suc s.flushed;
  stopped = stopped;
}

unfoldable pub flush_batch : Scanner → Flush → Scan → Scan
unfolding upsert_batch
flush_batch w not_begun s = after_flush (some failed) (s.counts, s.images) s
flush_batch w not_written s =
    after_flush (some failed) (count_files s.images s.batch s.counts, s.images) s
flush_batch w not_committed s =
    after_flush (some failed)
      ((upsert_batch w.job w.requested_by s.batch (s.counts, s.images)).0, s.images) s
flush_batch w reply_lost s =
    after_flush (some failed) (upsert_batch w.job w.requested_by s.batch (s.counts, s.images)) s
flush_batch w lease_lost s =
    after_flush (some failed) (upsert_batch w.job w.requested_by s.batch (s.counts, s.images)) s
flush_batch w refused s =
    record (after_flush (some left) (upsert_batch w.job w.requested_by s.batch (s.counts, s.images))
      s) { batch = [] }
flush_batch w saved s =
    record (after_flush none (upsert_batch w.job w.requested_by s.batch (s.counts, s.images)) s) {
      batch = [];
    }

abbrev no_files : List File → Bool
no_files [] = true
no_files (_ ∷ _) = false

unfoldable pub flush : Scanner → Scan → Scan
unfolding flush_batch
flush w s = if no_files s.batch then s else flush_batch w (w.flushes s.flushed) s

-- An entry that cannot be read.
unfoldable pub error_seen : Scan → Scan
error_seen s = record s {
  counts = record s.counts { errors = s.counts.errors + 1 };
  complete = false;
}

unfoldable pub add_file : File → Scan → Scan
add_file f s = record s {
  counts = record s.counts { discovered = s.counts.discovered + 1 };
  batch = s.batch ++ f ∷ [];
}

-- A file that is found: a batch that is full is flushed.
unfoldable pub found : Scanner → File → Scan → Scan
unfolding add_file flush
found w f s =
    if leb w.batch_size (length (add_file f s).batch) then flush w (add_file f s) else add_file f s

abbrev pub too_deep : Option ℕ → ℕ → Bool
too_deep none depth = false
too_deep (some max) depth = leb max depth

abbrev pub file_at : List Bytes → Bytes → ℕ → File
file_at parts name size = record { path = join b'$' parts; name = name; size = size }

unfoldable pub visit_file : Scanner → List Bytes → Bytes → Option ℕ → Scan → Scan
unfolding error_seen found
visit_file w parts name none s = error_seen s
visit_file w parts name (some size) s = found w (file_at parts name size) s

-- A walk that has stopped is left as it is.
unfoldable pub unless_stopped : Option Stop → Scan → Scan → Scan
unless_stopped (some stop) s rest = s
unless_stopped none s rest = rest

-- `parts` are those of the folder that holds the node, and `depth` counts the folders from the
-- root down. A walk that has stopped visits nothing more.
unfoldable mutual
  pub walk : Scanner → List Bytes → ℕ → Node → Scan → Scan
  walk w parts depth (folder name readable entries) s =
      if not (safe_parts (parts ++ name ∷ []))
      then s
      else if too_deep w.max_depth depth
      then s
      else if readable
      then walk_all w (parts ++ name ∷ []) (suc depth) entries s
      else error_seen s
  walk w parts depth (regular name size) s =
      if not (safe_parts (parts ++ name ∷ []))
      then s
      else if not (supported_media w.lower name)
      then s
      else visit_file w (parts ++ name ∷ []) name size s
  walk w parts depth (link name) s = s
  walk w parts depth (special name) s = s

  pub walk_all : Scanner → List Bytes → ℕ → Nodes → Scan → Scan
  walk_all w parts depth nil s = s
  walk_all w parts depth (cons node rest) s =
      unless_stopped s.stopped s (walk_all w parts depth rest (walk w parts depth node s))
