-- ===== src/Index/Walk/Keeps.antt =====
-- Jobs of the index worker that must not delete rows.
use imageboard.Base.{
  ℕ, ◌+◌, ◌≡◌, refl, ◌∷◌, [], ◌++◌, List, Bool, true, false, ◌&&◌, not, Option, none, some, ◌==◌,
  arith, leb, length, Bool-cases, inl, inr,
}
use imageboard.Text.{Bytes}
use imageboard.Index.Images.{Image, File, upsert, upsert_all, upsert_batch, deindex_stale}
use imageboard.Index.Jobs.{Counters}
use imageboard.Index.Images.Reconcile.Rows.{find_image-upsert}
use imageboard.Index.Walk.{
  Nodes, Scanner, Scan, Stop, Flush, flush, flush_batch, safe_parts, no_files, error_seen, add_file,
  found, not_begun, not_written, not_committed, reply_lost, lease_lost, refused, saved,
}
use imageboard.Index.Walk.Process.{
  World, Deletion, not_made, unheard, made, end_deletion, directory, root_parts, job_root,
  start_scan, scan_root, has_depth, reconcile, end_unless_stopped, end_scan, last_flush, scan,
  process_root, process,
}
use imageboard.Index.Walk.Lists.{unreadable_all, Follows, walk_all_follows, unless_stopped_cases}
use imageboard.Index.Walk.Refines.{indexed}

upsert_all_keeps :
    (job : ℕ) (by : Option ℕ) (path : Bytes) (files : List File) (images : List Image)
    → indexed images path ≡ true
    → indexed (upsert_all job by files images) path ≡ true
unfolding upsert_all indexed
upsert_all_keeps job by path [] images h = h
upsert_all_keeps job by path (f ∷ files) images h =
    upsert_all_keeps job by path files (upsert job by f images)
      (ground (arith, h, find_image-upsert job by path f images))

-- A part of a walk, whatever fails: it keeps the path, and the scan is complete behind it only if
-- it was before and everything could be read.
pub record Keeps (path : Bytes) (files : List File) (errors : ℕ) (s s' : Scan) : Type 0 where
  pub row : indexed s.images path ≡ true → indexed s'.images path ≡ true
  pub running :
      s'.stopped ≡ none → (s.stopped ≡ none) × (s'.complete ≡ (s.complete && (errors == 0)))

abbrev pub may_be_made : Deletion → Bool
may_be_made not_made = false
may_be_made unheard = true
may_be_made made = true

end_deletion_keeps :
    (d : Deletion) (counts : Counters) (before after : List Image) (path : Bytes)
    → may_be_made d ≡ false
    → indexed before path ≡ true
    → indexed (end_deletion d counts before after).1 path ≡ true
end_deletion_keeps not_made counts before after path e h = h
end_deletion_keeps unheard counts before after path e h = absurd (ground (arith, e))
end_deletion_keeps made counts before after path e h = absurd (ground (arith, e))

-- Nothing is in the way of a deletion: neither what was read, nor a limit, nor a cancellation.
abbrev pub may_delete : Scanner → World → Bool → Bool
may_delete w world complete =
    complete && not (has_depth w.max_depth) && not world.cancelled && may_be_made world.deletes

module _ (w : Scanner) (path : Bytes) where
  Keeps-refl : (s : Scan) → Keeps path [] 0 s s
  Keeps-refl s = record { row = λ h. h; running = λ h. (h, ground arith) }

  Keeps-trans :
      {files files' : List File} {errors errors' : ℕ} {s s' s'' : Scan}
      → Keeps path files errors s s'
      → Keeps path files' errors' s' s''
      → Keeps path (files ++ files') (errors + errors') s s''
  Keeps-trans a b = record {
    row = λ h. b.row (a.row h);
    running = λ h. (
      (a.running (b.running h).0).0,
      ground (arith, (b.running h).1, (a.running (b.running h).0).1),
    );
  }

  error_seen-Keeps : (s : Scan) → Keeps path [] 1 s (error_seen s)
  unfolding error_seen
  error_seen-Keeps s = record { row = λ h. h; running = λ h. (h, ground arith) }

  flush_batch-Keeps :
      (flush : Flush) (s : Scan) → s.stopped ≡ none → Keeps path [] 0 s (flush_batch w flush s)
  unfolding flush_batch upsert_batch
  flush_batch-Keeps not_begun s r = record {
    row = λ h. h;
    running = λ h. absurd (ground (arith, h));
  }
  flush_batch-Keeps not_written s r = record {
    row = λ h. h;
    running = λ h. absurd (ground (arith, h));
  }
  flush_batch-Keeps not_committed s r = record {
    row = λ h. h;
    running = λ h. absurd (ground (arith, h));
  }
  flush_batch-Keeps reply_lost s r = record {
    row = upsert_all_keeps w.job w.requested_by path s.batch s.images;
    running = λ h. absurd (ground (arith, h));
  }
  flush_batch-Keeps lease_lost s r = record {
    row = upsert_all_keeps w.job w.requested_by path s.batch s.images;
    running = λ h. absurd (ground (arith, h));
  }
  flush_batch-Keeps refused s r = record {
    row = upsert_all_keeps w.job w.requested_by path s.batch s.images;
    running = λ h. absurd (ground (arith, h));
  }
  flush_batch-Keeps saved s r = record {
    row = upsert_all_keeps w.job w.requested_by path s.batch s.images;
    running = λ h. (r, ground arith);
  }

  flush-Keeps : (s : Scan) → s.stopped ≡ none → Keeps path [] 0 s (flush w s)
  unfolding flush
  flush-Keeps s r = elim (Bool-cases (no_files s.batch)) [
    | inl q ↦ rw q (Keeps-refl s)
    | inr q ↦ rw q (flush_batch-Keeps (w.flushes s.flushed) s r)
  ]

  add_file-Keeps : (f : File) (s : Scan) → Keeps path (f ∷ []) 0 s (add_file f s)
  unfolding add_file
  add_file-Keeps f s = record { row = λ h. h; running = λ h. (h, ground arith) }

  found-Keeps : (f : File) (s : Scan) → s.stopped ≡ none → Keeps path (f ∷ []) 0 s (found w f s)
  unfolding found add_file
  found-Keeps f s r = elim (Bool-cases (leb w.batch_size (length (add_file f s).batch))) [
    | inl q ↦ rw q (Keeps-trans (add_file-Keeps f s) (flush-Keeps (add_file f s) r))
    | inr q ↦ rw q (add_file-Keeps f s)
  ]

  Keeps-Follows : Follows w (Keeps path)
  Keeps-Follows = record {
    nothing = Keeps-refl;
    one_more = Keeps-trans;
    error = λ s h. error_seen-Keeps s;
    file = found-Keeps;
    stopped = λ files errors s stop e. record {
      row = λ h. h;
      running = λ h. absurd (ground (arith, e, h));
    };
  }

  last_flush-Keeps : (s : Scan) → Keeps path [] 0 s (last_flush w s)
  unfolding last_flush
  last_flush-Keeps s =
      unless_stopped_cases (Keeps path [] 0 s) s.stopped s (flush w s) (λ stop e. Keeps-refl s)
        (flush-Keeps s)

  module _ (world : World) (root : Bytes) where
    end_unless_stopped_keeps :
        (stopped : Option Stop) (s : Scan)
        → (stopped ≡ none → may_delete w world s.complete ≡ false)
        → indexed s.images path ≡ true
        → indexed (end_unless_stopped stopped w world root s).1 path ≡ true
    unfolding reconcile
    end_unless_stopped_keeps (some stop) s f h = h
    end_unless_stopped_keeps none s f h = ground (
      arith,
      f refl,
      h,
      end_deletion_keeps world.deletes s.counts s.images (deindex_stale w.job root s.images) path,
    )

    -- What a scan keeps behind its walk, if it may not delete once everything is read.
    end_scan-Keeps :
        {files : List File} {errors : ℕ} {s s' : Scan}
        → Keeps path files errors s s'
        → may_delete w world (s.complete && (errors == 0)) ≡ false
        → indexed s.images path ≡ true
        → indexed (end_scan w world root (last_flush w s')).1 path ≡ true
    unfolding end_scan
    end_scan-Keeps {s' = s'} k f h =
        let all = Keeps-trans k (last_flush-Keeps s') in
        end_unless_stopped_keeps (last_flush w s').stopped (last_flush w s')
          (λ r. ground (arith, (all.running r).1, f)) (all.row h)

-- A job on a folder keeps every indexed path, whichever batches and leases fail, if some entry
-- cannot be read, its depth is limited, it is cancelled or the deletion is not made.
pub process_keeps :
    (w : Scanner) (world : World) (root : Bytes) (entries : Nodes) (images : List Image)
    (path : Bytes)
    → may_delete w world (unreadable_all w (root_parts root) 0 entries == 0) ≡ false
    → indexed images path ≡ true
    → indexed (process w world root (directory true entries) images).1 path ≡ true
unfolding process process_root scan scan_root start_scan job_root
process_keeps w world root entries images path f h =
    elim (Bool-cases (safe_parts (root_parts root) && world.located)) [
      | inr q ↦ rw (q, process) h
      | inl q ↦
          rw (q, process)
            (end_scan-Keeps w path world root
              (walk_all_follows w (Keeps path) (Keeps-Follows w path) (root_parts root) 0 entries
                (start_scan images))
              f h)
    ]
