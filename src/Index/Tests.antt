-- ===== src/Index/Tests.antt =====
-- Runs of the queue and of the image table, and the theorems at concrete ones.
use imageboard.Base.{◌+◌, ◌≤◌, ◌≡◌, refl, true, false, List, [], ◌∷◌, none, some, arith}
use imageboard.Text.{Bytes, codes, any_byte, has_prefix, bytes_eq}
use imageboard.Index.Jobs.{
  Job, Status, no_counts, new_job, Op, enqueues, claims, cancels, finishes, Outcome, apply_all,
  claim, finish, active_job, is_claimable, progress, renew_lease, find_job, cancel_job, claimed,
}
use imageboard.Index.Jobs.Served.{claim_serves}
use imageboard.Index.Jobs.Active.{active_count, apply_all-active}
use imageboard.Index.Jobs.Fence.{claim_fences, finish-cancel_job, id_taken}
use imageboard.Index.Images.{Image, File, find_image, upsert_batch, deindex_stale}
use imageboard.Index.Images.Like.{is_under}
use imageboard.Index.Images.Reconcile.{scan_reconciles, after_scan, deindex_stale_underscore}
use imageboard.Index.Images.Reconcile.Rows.{UniquePaths, is_found, listed, path_taken}
use imageboard.Index.Images.Count.{upsert_batch_accounts}

abbrev waiting : Job
waiting = new_job 7 (codes "cats") none 1

-- Under a lease that ran out at 50.
abbrev abandoned : Job
abandoned = record waiting { status = Status.running; worker = some 1; lease_expires = some 50 }

abbrev schedule : List Op
schedule =
    enqueues 7 [] none 1
    ∷ claims 1 10
    ∷ enqueues 8 [] none 1
    ∷ cancels 7 20
    ∷ enqueues 9 [] none 1
    ∷ finishes 1 7 30 Outcome.succeed none no_counts
    ∷ []

apply_all-active_example : active_count (apply_all schedule []) ≤ 1
apply_all-active_example = apply_all-active schedule [] (omega arith)

claim_fences_example :
    let jobs' = (claim 2 100 (abandoned ∷ [])).1 in
    (finish 1 7 110 Outcome.succeed none no_counts jobs' ≡ jobs')
    × (progress 1 7 110 no_counts jobs' ≡ (false, jobs'))
    × (renew_lease 1 7 110 jobs' ≡ (false, jobs'))
unfolding claim id_taken
claim_fences_example =
    claim_fences 1 2 100 110 Outcome.succeed none no_counts (abandoned ∷ [])
      (claimed 2 100 abandoned) (omega arith) (refl, tt) refl

finish-cancel_job_example :
    (k : Job) × (find_job 7
        (finish 1 7 30 Outcome.fail none no_counts (cancel_job 7 20 (abandoned ∷ [])))
      ≡ some k)
    × (k.status ≡ Status.failed)
unfolding find_job
finish-cancel_job_example =
    finish-cancel_job 1 7 20 30 Outcome.fail none no_counts (abandoned ∷ []) abandoned refl refl

abbrev image : Bytes → Image
image path = record {
  path = path;
  name = codes "x.png";
  size = some 5;
  hits = 0;
  uploader = none;
  last_job = some 1;
}

abbrev file : Bytes → File
file path = record { path = path; name = codes "y.png"; size = 6 }

abbrev library : List Image
library = image (codes "cats$x.png") ∷ image (codes "dogs$x.png") ∷ []

library-UniquePaths : UniquePaths library
unfolding path_taken bytes_eq
library-UniquePaths = (refl, (refl, tt))

scan_reconciles_example :
    let after = after_scan 2 none (codes "cats") (file (codes "cats$y.png") ∷ []) library in
    (is_under (codes "cats") (codes "cats$x.png") ≡ true
      → is_found (find_image (codes "cats$x.png") after)
        ≡ listed (codes "cats$x.png") (file (codes "cats$y.png") ∷ []))
    × (is_under (codes "cats") (codes "cats$x.png") ≡ false
        → find_image (codes "cats$x.png") after ≡ find_image (codes "cats$x.png") library)
unfolding any_byte is_under has_prefix bytes_eq
scan_reconciles_example =
    scan_reconciles 2 none (codes "cats") (file (codes "cats$y.png") ∷ []) library refl
      library-UniquePaths (refl, (refl, tt)) (refl, tt) (codes "cats$x.png")

deindex_stale_underscore_example :
    (is_under (codes "my_cats") (codes "my-cats$x.png") ≡ false)
    × (find_image
          (codes "my-cats$x.png")
          (deindex_stale 2 (codes "my_cats") (image (codes "my-cats$x.png") ∷ []))
        ≡ none)
unfolding any_byte path_taken find_image bytes_eq
deindex_stale_underscore_example =
    deindex_stale_underscore 2 (codes "my") (codes "cats") (codes "x.png") b'-'
      (image (codes "my-cats$x.png") ∷ []) (image (codes "my-cats$x.png")) refl refl refl (refl, tt)
      refl refl

upsert_batch_accounts_example :
    let c' = (upsert_batch 2 none (file (codes "cats$y.png") ∷ []) (no_counts, library)).0 in
    (c'.processed ≡ c'.indexed + c'.updated + c'.skipped) × (c'.processed ≡ 0 + 1)
upsert_batch_accounts_example =
    upsert_batch_accounts 2 none (file (codes "cats$y.png") ∷ []) no_counts library refl

claim_serves_example :
    let (found, jobs') = claim 2 100 (abandoned ∷ []) in
    (found ≡ some (claimed 2 100 abandoned))
    × (active_job (finish 2 abandoned.id 120 Outcome.succeed none no_counts jobs') ≡ none)
unfolding active_job is_claimable
claim_serves_example =
    claim_serves 2 100 120 Outcome.succeed none no_counts (abandoned ∷ []) abandoned (omega arith)
      refl refl
