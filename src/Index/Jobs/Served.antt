-- ===== src/Index/Jobs/Served.antt =====
-- A job that waits, or that a worker has left behind, and the next worker that asks:
-- index_worker/cmd/index-worker/main.go `claim` and `finish`.
use imageboard.Base.{
  ℕ, ◌≤◌, ◌≡◌, refl, subst, ap, ◌∙◌, true, false, List, [], ◌∷◌, Option, none, some, arith, String,
  Bool-cases, inl, inr,
}
use imageboard.Index.Jobs.{
  Job, Counters, Outcome, is_active, active_job, is_claimable, claimed, claim, finish,
  outcome_status, Status, pending, running, succeeded, failed, cancelled, is_pending, is_running,
  succeed, fail, cancel,
}
use imageboard.Index.Jobs.Active.{active_count}

outcome_inactive : (outcome : Outcome) → is_active (outcome_status outcome) ≡ false
outcome_inactive succeed = refl
outcome_inactive fail = refl
outcome_inactive cancel = refl

module _ (worker id later : ℕ) (outcome : Outcome) (code : Option String) (counts : Counters) where
  -- Behind `finish`, no job is active where none was.
  finish_inactive :
      (jobs : List Job)
      → active_count jobs ≡ 0
      → active_job (finish worker id later outcome code counts jobs) ≡ none
  unfolding active_job finish
  finish_inactive [] h = refl
  finish_inactive (j ∷ jobs) h =
      ground (arith, h, outcome_inactive outcome, finish_inactive jobs (ground (arith, h)))

  finish_passes :
      (j : Job) (jobs : List Job)
      → is_active j.status ≡ false
      → active_job (finish worker id later outcome code counts jobs) ≡ none
      → active_job (finish worker id later outcome code counts (j ∷ jobs)) ≡ none
  unfolding active_job finish
  finish_passes j jobs h f = ground (arith, h, outcome_inactive outcome, f)

  -- The claimed job is at the head of those that are left.
  finish-claimed :
      (now : ℕ) (j : Job) (jobs : List Job)
      → j.id ≡ id
      → active_count jobs ≡ 0
      → active_job (finish worker id later outcome code counts (claimed worker now j ∷ jobs)) ≡ none
  unfolding active_job finish claimed
  finish-claimed now j jobs e h =
      ground (arith, e, outcome_inactive outcome, finish_inactive jobs h)

inactive_statuses :
    (status : Status)
    → is_active status ≡ false
    → (is_pending status ≡ false) × (is_running status ≡ false)
inactive_statuses pending h = absurd (ground (arith, h))
inactive_statuses running h = absurd (ground (arith, h))
inactive_statuses succeeded h = (refl, refl)
inactive_statuses failed h = (refl, refl)
inactive_statuses cancelled h = (refl, refl)

claimable_active : (now : ℕ) (j : Job) → is_active j.status ≡ false → is_claimable now j ≡ false
unfolding is_claimable
claimable_active now j h = ground (arith, h, inactive_statuses j.status h)

-- In a queue with at most one job that waits or runs, in which this job waits or its lease is over:
-- the next worker that claims is given this job, and once that worker finishes it, whatever comes of
-- it, no job waits or runs.
pub claim_serves :
    (worker now later : ℕ) (outcome : Outcome) (code : Option String) (counts : Counters)
    (jobs : List Job) (j : Job)
    → active_count jobs ≤ 1
    → active_job jobs ≡ some j
    → is_claimable now j ≡ true
    → let (found, jobs') = claim worker now jobs in
      (found ≡ some (claimed worker now j))
      × (active_job (finish worker j.id later outcome code counts jobs') ≡ none)
unfolding claim active_job
claim_serves worker now later outcome code counts [] j one a c = absurd (ground (arith, a))
claim_serves worker now later outcome code counts (x ∷ jobs) j one a c =
    elim (Bool-cases (is_active x.status)) [
      | inl q ↦
          let e : x ≡ j = ground (arith, a, q) in
          let cx : is_claimable now x ≡ true = ap (is_claimable now) e ∙ c in
          subst
            (λ k.
              ((claim worker now (x ∷ jobs)).0 ≡ some (claimed worker now k))
              × (active_job
                    (finish worker k.id later outcome code counts (claim worker now (x ∷ jobs)).1)
                  ≡ none))
            e
            (rw (cx, claim)
              (
                refl,
                finish-claimed worker x.id later outcome code counts now x jobs refl
                    (ground (arith, one, q)),
              ))
      | inr q ↦
          let (given, free) =
            claim_serves worker now later outcome code counts jobs j (ground (arith, one, q))
              (ground (arith, a, q)) c in
          rw (claimable_active now x q, claim)
            (
              given,
              finish_passes worker j.id later outcome code counts x (claim worker now jobs).1 q
                  free,
            )
    ]
