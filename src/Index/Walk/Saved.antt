-- ===== src/Index/Walk/Saved.antt =====
-- A walk of which every batch is saved, and the list of the media files that the tree holds.
use imageboard.Base.{
  ℕ, ◌+◌, ◌≡◌, refl, ◌∷◌, [], ◌++◌, List, ◌&&◌, Option, none, some, leb, ◌==◌, length,
  length-append, arith, Bool-cases, inl, inr, sym, ◌∙◌, ap,
}
use imageboard.Text.{Bytes}
use imageboard.Index.Jobs.{Counters}
use imageboard.Index.Images.{
  Image, File, count_file, count_files, upsert, upsert_all, upsert_batch, find_image,
}
use imageboard.Index.Walk.{
  Nodes, Scanner, Scan, saved, flush, flush_batch, no_files, error_seen, add_file, found, walk_all,
  unless_stopped, Stop,
}
use imageboard.Index.Walk.Lists.{media_files_all, unreadable_all, Follows, walk_all_follows}

module _ (w : Scanner) where
  -- The table once the batch is in it, too.
  abbrev pub pending : Scan → List Image
  pending s = upsert_all w.job w.requested_by s.batch s.images

  -- A part of a walk that goes on to its end: the files it has found, and what it could not read.
  pub record Adds (files : List File) (errors : ℕ) (s s' : Scan) : Type 0 where
    pub running : s'.stopped ≡ none
    pub images : pending s' ≡ upsert_all w.job w.requested_by files (pending s)
    pub discovered : s'.counts.discovered ≡ s.counts.discovered + length files
    pub errors_grow : s'.counts.errors ≡ s.counts.errors + errors
    pub completes : s'.complete ≡ (s.complete && (errors == 0))

upsert_all-append :
    (job : ℕ) (by : Option ℕ) (xs ys : List File) (images : List Image)
    → upsert_all job by (xs ++ ys) images ≡ upsert_all job by ys (upsert_all job by xs images)
unfolding upsert_all
upsert_all-append job by [] ys images = refl
upsert_all-append job by (x ∷ xs) ys images =
    upsert_all-append job by xs ys (upsert job by x images)

count_file_keeps :
    (f : File) (o : Option Image) (c : Counters)
    → ((count_file f o c).discovered ≡ c.discovered) × ((count_file f o c).errors ≡ c.errors)
unfolding count_file
count_file_keeps f none c = (refl, refl)
count_file_keeps f (some old) c = ground arith

pub unless_stopped-none :
    (stopped : Option Stop) (s rest : Scan) → stopped ≡ none → unless_stopped stopped s rest ≡ rest
unfolding unless_stopped
unless_stopped-none none s rest h = refl
unless_stopped-none (some stop) s rest h = absurd (ground arith)

pub count_files_keeps :
    (images : List Image) (files : List File) (c : Counters)
    → ((count_files images files c).discovered ≡ c.discovered)
      × ((count_files images files c).errors ≡ c.errors)
unfolding count_files
count_files_keeps images [] c = (refl, refl)
count_files_keeps images (f ∷ files) c = ground (
  arith,
  count_file_keeps f (find_image f.path images) c,
  count_files_keeps images files (count_file f (find_image f.path images) c),
)

module _ (w : Scanner) where
  Adds-refl : (s : Scan) → s.stopped ≡ none → Adds w [] 0 s s
  unfolding upsert_all
  Adds-refl s h = record {
    running = h;
    images = refl;
    discovered = omega arith;
    errors_grow = omega arith;
    completes = ground arith;
  }

  pub Adds-trans :
      {files files' : List File} {errors errors' : ℕ} {s s' s'' : Scan}
      → Adds w files errors s s'
      → Adds w files' errors' s' s''
      → Adds w (files ++ files') (errors + errors') s s''
  Adds-trans {files} {files'} {errors} {errors'} {s} a b = record {
    running = b.running;
    images =
        b.images
        ∙ ap (upsert_all w.job w.requested_by files') a.images
        ∙ sym (upsert_all-append w.job w.requested_by files files' (pending w s));
    discovered = omega (arith, a.discovered, b.discovered, length-append files files');
    errors_grow = omega (arith, a.errors_grow, b.errors_grow);
    completes = ground (arith, a.completes, b.completes);
  }

  error_seen-Adds : (s : Scan) → s.stopped ≡ none → Adds w [] 1 s (error_seen s)
  unfolding error_seen upsert_all
  error_seen-Adds s h = record {
    running = h;
    images = refl;
    discovered = omega arith;
    errors_grow = refl;
    completes = ground arith;
  }

  add_file-Adds : (f : File) (s : Scan) → s.stopped ≡ none → Adds w (f ∷ []) 0 s (add_file f s)
  unfolding add_file
  add_file-Adds f s h = record {
    running = h;
    images = upsert_all-append w.job w.requested_by s.batch (f ∷ []) s.images;
    discovered = refl;
    errors_grow = omega arith;
    completes = ground arith;
  }

  module _ (always : (n : ℕ) → w.flushes n ≡ saved) where
    pub flush-Adds : (s : Scan) → s.stopped ≡ none → Adds w [] 0 s (flush w s)
    unfolding flush flush_batch upsert_batch
    flush-Adds s h = elim (Bool-cases (no_files s.batch)) [
      | inl q ↦ rw q (Adds-refl s h)
      | inr q ↦
          rw (q, always s.flushed)
            record {
              running = refl;
              images = refl;
              discovered = omega (arith, count_files_keeps s.images s.batch s.counts);
              errors_grow = omega (arith, count_files_keeps s.images s.batch s.counts);
              completes = ground arith;
            }
    ]

    found-Adds : (f : File) (s : Scan) → s.stopped ≡ none → Adds w (f ∷ []) 0 s (found w f s)
    unfolding found
    found-Adds f s h = elim (Bool-cases (leb w.batch_size (length (add_file f s).batch))) [
      | inl q ↦ rw q (
          Adds-trans (add_file-Adds f s h)
            (flush-Adds (add_file f s) (add_file-Adds f s h).running))
      | inr q ↦ rw q (add_file-Adds f s h)
    ]

    Adds-Follows : Follows w (λ files errors s s'. s.stopped ≡ none → Adds w files errors s s')
    Adds-Follows = record {
      nothing = Adds-refl;
      one_more = λ a b h. Adds-trans (a h) (b (a h).running);
      error = λ s h _. error_seen-Adds s h;
      file = λ f s h _. found-Adds f s h;
      stopped = λ files errors s stop e h. absurd (ground (arith, e, h));
    }

    pub walk_all-Adds :
        (parts : List Bytes) (depth : ℕ) (nodes : Nodes) (s : Scan)
        → s.stopped ≡ none
        → Adds w
            (media_files_all w parts depth nodes)
            (unreadable_all w parts depth nodes)
            s
            (walk_all w parts depth nodes s)
    walk_all-Adds = walk_all_follows w _ Adds-Follows
