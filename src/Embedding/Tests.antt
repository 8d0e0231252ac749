-- ===== src/Embedding/Tests.antt =====
-- A run of two workers on one image, and the theorems at it.
use imageboard.Base.{
  ◌*◌, ◌+◌, ◌≡◌, ◌≤◌, refl, true, false, [], ◌∷◌, List, none, some, min, leb, arith,
}
use imageboard.Text.{Bytes, codes, bytes_eq}
use imageboard.Embedding.{
  pending, Source, Item, Job, claim, is_claimable, is_current, read_source, publish, fail, renew,
  retry_delay, change_source,
}
use imageboard.Embedding.Fresh.{
  Encoder, World, here, Steps, done, next, claims, reads_source, publishes, IsFresh, Steps-IsFresh,
}
use imageboard.Embedding.Lease.{publish_once, claim_fences_publish, fail_retries}

-- The vector of a source is its tags.
abbrev encoder : Encoder (List Bytes)
encoder = record {
  vectorize = λ version source. source.tags;
  is_empty = λ v. elim v [ [] ↦ true | _ ∷ _ ↦ false ];
  source_hash = λ source version. version;
}

abbrev cats : Source
cats = record { tags = codes "cat" ∷ []; comments = [] }

abbrev dogs : Source
dogs = record { tags = codes "dog" ∷ []; comments = [] }

abbrev waiting : Item (List Bytes)
waiting = record {
  revision = 1;
  status = pending;
  available_at = 0;
  lease_token = none;
  lease_until = none;
  attempts = 0;
  last_error = false;
  completed_revision = 0;
  source = cats;
  embedding = none;
}

abbrev start : World (List Bytes)
start = record { setting = codes "v1"; item = waiting; reads = [] }

abbrev job : Job
job = record { revision = 1; token = 7; attempts = 1 }

abbrev taken : World (List Bytes)
taken = record start { item = (claim 7 10 waiting).1 }

abbrev known : World (List Bytes)
known = record taken { reads = (job, cats) ∷ [] }

abbrev shown : World (List Bytes)
shown = record known {
  item = (publish (codes "v1") (codes "v1") job 20 false (codes "v1") cats.tags known.item).1;
}

reading : read_source job taken.item ≡ some cats
unfolding read_source claim
reading = refl

trace : Steps encoder start shown
trace =
    next (next (next (done start) (claims start 7 10)) (reads_source taken job cats reading))
      (publishes known (codes "v1") job cats 20 (here []))

start-IsFresh : IsFresh encoder start
start-IsFresh = record { agree = tt; shows = tt }

Steps-IsFresh_example : IsFresh encoder shown
Steps-IsFresh_example = Steps-IsFresh encoder trace start-IsFresh

-- A change of the tags before the publication: what the worker read is not published.
late_publish :
    (publish
      (codes "v1")
      (codes "v1")
      job
      20
      false
      (codes "v1")
      cats.tags
      (change_source dogs 15 taken.item)).0
    ≡ false
unfolding publish change_source claim
late_publish = refl

publish_once_example :
    ((publish (codes "v1") (codes "v1") job 30 false (codes "v1") cats.tags shown.item).0 ≡ false)
    × (is_claimable 30 shown.item ≡ false)
unfolding publish claim bytes_eq
publish_once_example =
    publish_once (codes "v1") (codes "v1") (codes "v1") (codes "v1") job job 20 30 false false
      (codes "v1") (codes "v1") cats.tags cats.tags known.item refl

claim_fences_publish_example :
    (publish
        (codes "v1")
        (codes "v1")
        job
        210
        false
        (codes "v1")
        cats.tags
        (claim 8 200 taken.item).1
      ≡ (false, (claim 8 200 taken.item).1))
    × (renew job 210 (claim 8 200 taken.item).1 ≡ (false, (claim 8 200 taken.item).1))
    × (fail job 210 (claim 8 200 taken.item).1 ≡ (claim 8 200 taken.item).1)
unfolding claim
claim_fences_publish_example =
    claim_fences_publish job 8 200 210 (codes "v1") (codes "v1") false (codes "v1") cats.tags
      taken.item (ground arith) refl

fail_retries_example :
    (is_claimable 25 (fail job 12 taken.item) ≡ leb (12 + retry_delay 1) 25)
    × (10 ≤ retry_delay 1)
    × (retry_delay 1 ≤ 600)
    × (retry_delay 2 ≡ min 600 (2 * retry_delay 1))
unfolding claim is_current
fail_retries_example = fail_retries job 12 25 taken.item (ground arith) refl
