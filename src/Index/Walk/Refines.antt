-- ===== src/Index/Walk/Refines.antt =====
-- A whole job of the index worker and the set of paths that the index has.
use imageboard.Base.{
  ℕ, ◌≡◌, refl, ◌∷◌, [], List, Bool, true, false, none, some, length, if◌then◌else◌, arith,
  Bool-cases, inl, inr, ◌∙◌, sym, ap,
}
use imageboard.Text.{Bytes, All, All-mono}
use imageboard.Index.Jobs.{Counters, succeed}
use imageboard.Index.Images.{Image, File, find_image, upsert_all, deindex_stale}
use imageboard.Index.Images.Like.{IsPlain, is_under}
use imageboard.Index.Images.Reconcile.{after_scan, scan_reconciles}
use imageboard.Index.Images.Reconcile.Rows.{UniquePaths, IsFresh, is_found, listed}
use imageboard.Index.Walk.{
  Nodes, Scanner, Scan, saved, safe_parts, flush, flush_batch, no_files, walk_all,
}
use imageboard.Index.Walk.Process.{
  World, made, directory, Ending, finished, root_parts, job_root, start_scan, scan_root, deleted,
  reconcile, end_unless_stopped, end_scan, last_flush, scan, process_root, process,
}
use imageboard.Index.Walk.Lists.{media_files_all, unreadable_all}
use imageboard.Index.Walk.Saved.{Adds, flush-Adds, walk_all-Adds, unless_stopped-none}
use imageboard.Index.Walk.Beneath.{GoesOn, GoesOn-is_under, media_files_all-GoesOn}

no_files_nil : (files : List File) → no_files files ≡ true → files ≡ []
no_files_nil [] h = refl
no_files_nil (_ ∷ _) h = absurd (ground (arith, h))

-- Which paths the index has, whatever its rows are.
unfoldable pub indexed : List Image → Bytes → Bool
indexed images path = is_found (find_image path images)

-- The set of paths after a scan: below the root those of the files, elsewhere the same as before.
unfoldable pub reindexed : Bytes → List File → (Bytes → Bool) → Bytes → Bool
reindexed root files paths path = if is_under root path then listed path files else paths path

-- Nothing goes wrong in the world of the job, nobody cancels it, and its depth is not limited.
pub record Undisturbed (w : Scanner) (world : World) : Type 0 where
  pub always : (n : ℕ) → w.flushes n ≡ saved
  pub unlimited : w.max_depth ≡ none
  pub located : world.located ≡ true
  pub not_cancelled : world.cancelled ≡ false
  pub deletes : world.deletes ≡ made

module _ (w : Scanner) (world : World) (root : Bytes) (u : Undisturbed w world) where
  flush_empties : (s : Scan) → (flush w s).batch ≡ []
  unfolding flush flush_batch
  flush_empties s = elim (Bool-cases (no_files s.batch)) [
    | inl q ↦ rw q (no_files_nil s.batch q)
    | inr q ↦ rw (q, u.always s.flushed) refl
  ]

  -- How a scan ends that is complete.
  abbrev complete_ending : Scan → Ending × List Image
  complete_ending s =
      let images : List Image = deindex_stale w.job root s.images in
      (finished succeed none (record s.counts { deindexed = deleted s.images images }), images)

  end_scan_complete :
      (s : Scan)
      → s.stopped ≡ none
      → s.complete ≡ true
      → end_scan w world root s ≡ complete_ending s
  unfolding end_scan reconcile
  end_scan_complete s h c =
      ap (λ o. end_unless_stopped o w world root s) h
      ∙ rw (u.not_cancelled, c, u.unlimited, u.deletes) refl

  job_root_located :
      safe_parts (root_parts root) ≡ true → job_root world root ≡ some (root_parts root)
  unfolding job_root
  job_root_located h = rw (h, u.located) refl

  module _ (entries : Nodes) (images : List Image) (safe : safe_parts (root_parts root) ≡ true)
      (readable : unreadable_all w (root_parts root) 0 entries ≡ 0) where
    abbrev walked : Scan
    walked = walk_all w (root_parts root) 0 entries (start_scan images)

    abbrev files : List File
    files = media_files_all w (root_parts root) 0 entries

    walked-Adds :
        Adds w files (unreadable_all w (root_parts root) 0 entries) (start_scan images) walked
    walked-Adds =
        walk_all-Adds w u.always (root_parts root) 0 entries (start_scan images)
          (unfold start_scan in refl)

    flushed-Adds : Adds w [] 0 walked (flush w walked)
    flushed-Adds = flush-Adds w u.always walked walked-Adds.running

    -- The rows that the walk and its last flush leave.
    flushed_images : (flush w walked).images ≡ upsert_all w.job w.requested_by files images
    unfolding start_scan upsert_all
    flushed_images =
        ap (λ batch. upsert_all w.job w.requested_by batch (flush w walked).images)
          (sym (flush_empties walked))
        ∙ flushed-Adds.images
        ∙ walked-Adds.images

    no_errors :
        ((flush w walked).complete ≡ true)
        × ((flush w walked).counts.errors ≡ 0)
        × ((flush w walked).counts.discovered ≡ length files)
    unfolding start_scan
    no_errors =
        let flushes = flushed-Adds in
        let walks = walked-Adds in
        (
          ground (arith, flushes.completes, walks.completes, readable),
          omega (arith, flushes.errors_grow, walks.errors_grow, readable),
          omega (arith, flushes.discovered, walks.discovered),
        )

    scan_complete :
        scan w world root (root_parts root) (directory true entries) images
        ≡ complete_ending (flush w walked)
    unfolding scan scan_root last_flush
    scan_complete =
        ap (end_scan w world root)
          (unless_stopped-none walked.stopped walked (flush w walked) walked-Adds.running)
        ∙ end_scan_complete (flush w walked) flushed-Adds.running no_errors.0

    process_complete :
        process w world root (directory true entries) images ≡ complete_ending (flush w walked)
    unfolding process process_root
    process_complete = rw (job_root_located safe, process) scan_complete

    files_under : All (λ f. is_under root f.path ≡ true) files
    files_under =
        All-mono (GoesOn (root_parts root)) (λ f. is_under root f.path ≡ true) files
          (GoesOn-is_under root) (media_files_all-GoesOn w (root_parts root) 0 entries)

    after_complete :
        (process w world root (directory true entries) images).1
        ≡ after_scan w.job w.requested_by root files images
    unfolding after_scan
    after_complete = ap (λ p. p.1) process_complete ∙ ap (deindex_stale w.job root) flushed_images

    paths_reindexed :
        IsPlain root
        → UniquePaths images
        → IsFresh w.job images
        → (path : Bytes)
        → indexed (after_scan w.job w.requested_by root files images) path
          ≡ reindexed root files (indexed images) path
    unfolding indexed reindexed
    paths_reindexed plain unique fresh path =
        let (inside, outside) =
          scan_reconciles w.job w.requested_by root files images plain unique fresh files_under
            path in
        elim (Bool-cases (is_under root path)) [
          | inl q ↦ rw q (inside q)
          | inr q ↦ rw q (ap is_found (outside q))
        ]

-- A job on a folder of the tree, with safe parts and plain characters in its path, everything
-- readable below it, no limit of its depth, no failure and no cancellation, and a table with unique
-- paths and no row that bears the job's mark: the job succeeds, having discovered all media files
-- and met no error, and of the set of indexed paths it leaves outside the folder what there was, and
-- inside exactly the paths of the media files.
pub process_reconciles :
    (w : Scanner) (world : World) (root : Bytes) (entries : Nodes) (images : List Image)
    → Undisturbed w world
    → safe_parts (root_parts root) ≡ true
    → unreadable_all w (root_parts root) 0 entries ≡ 0
    → IsPlain root
    → UniquePaths images
    → IsFresh w.job images
    → let files = media_files_all w (root_parts root) 0 entries in
      let result = process w world root (directory true entries) images in
      (counts : Counters) × (result.0 ≡ finished succeed none counts)
      × (counts.discovered ≡ length files)
      × (counts.errors ≡ 0)
      × ((path : Bytes) → indexed result.1 path ≡ reindexed root files (indexed images) path)
process_reconciles w world root entries images u safe readable plain unique fresh =
    let (complete, no_error, all_discovered) =
      no_errors w world root u entries images safe readable in
    (
      _,
      ap (λ p. p.0) (process_complete w world root u entries images safe readable),
      all_discovered,
      no_error,
      λ path.
          ap (λ after. indexed after path)
            (after_complete w world root u entries images safe readable)
          ∙ paths_reindexed w world root u entries images safe readable plain unique fresh path,
    )
