-- ===== src/Index/Images/Count.antt =====
-- The counters of `upsertBatch`, index_worker/cmd/index-worker/main.go.
use imageboard.Base.{ℕ, ◌+◌, ◌≡◌, refl, ◌∷◌, [], List, arith, Option, none, some, length}
use imageboard.Index.Jobs.{Counters}
use imageboard.Index.Images.{Image, File, find_image, count_file, count_files, upsert_batch}

count_file_total :
    (f : File) (o : Option Image) (c : Counters)
    → let c' = count_file f o c in
      (c'.indexed + c'.updated + c'.skipped ≡ c.indexed + c.updated + c.skipped + 1)
      × (c'.processed ≡ c.processed)
unfolding count_file
count_file_total f none c = ground arith
count_file_total f (some old) c = ground arith

count_files_total :
    (images : List Image) (files : List File) (c : Counters)
    → let c' = count_files images files c in
      (c'.indexed + c'.updated + c'.skipped ≡ c.indexed + c.updated + c.skipped + length files)
      × (c'.processed ≡ c.processed)
unfolding count_files
count_files_total images [] c = (omega arith, refl)
count_files_total images (f ∷ files) c = omega (
  arith,
  count_file_total f (find_image f.path images) c,
  count_files_total images files (count_file f (find_image f.path images) c),
)

-- Where the files processed were those indexed, updated and skipped, they are so after a batch, and
-- the batch's files have been added.
pub upsert_batch_accounts :
    (job : ℕ) (by : Option ℕ) (files : List File) (c : Counters) (images : List Image)
    → c.processed ≡ c.indexed + c.updated + c.skipped
    → let c' = (upsert_batch job by files (c, images)).0 in
      (c'.processed ≡ c'.indexed + c'.updated + c'.skipped)
      × (c'.processed ≡ c.processed + length files)
unfolding upsert_batch
upsert_batch_accounts job by files c images h = omega (arith, count_files_total images files c)
