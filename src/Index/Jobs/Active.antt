-- ===== src/Index/Jobs/Active.antt =====
-- Jobs that wait or run, under the statements of Index/Jobs.
use imageboard.Base.{
  ℕ, suc, ◌≤◌, ◌≡◌, refl, Bool, true, false, List, [], ◌∷◌, ◌++◌, Option, none, arith, String,
}
use imageboard.Index.Jobs.{
  Job, Counters, Outcome, Op, enqueues, cancels, claims, renews, progresses, finishes, is_active,
  active_job, new_job, enqueue_job, cancel_job, claim, renew_lease, progress, finish, apply,
  apply_all,
}

abbrev pub count_if : Bool → ℕ → ℕ
count_if true n = suc n
count_if false n = n

abbrev pub active_count : List Job → ℕ
active_count [] = 0
active_count (j ∷ rest) = count_if (is_active j.status) (active_count rest)

no_active : (jobs : List Job) → active_job jobs ≡ none → active_count jobs ≡ 0
unfolding active_job
no_active [] h = refl
no_active (j ∷ jobs) h = ground (arith, no_active jobs)

active_count-append :
    (jobs : List Job) (j : Job) → active_count (jobs ++ j ∷ []) ≤ suc (active_count jobs)
active_count-append [] j = ground arith
active_count-append (x ∷ jobs) j = ground (arith, active_count-append jobs j)

cancel_job-active :
    (id now : ℕ) (jobs : List Job) → active_count (cancel_job id now jobs) ≤ active_count jobs
unfolding cancel_job
cancel_job-active id now [] = omega arith
cancel_job-active id now (j ∷ jobs) = ground (arith, cancel_job-active id now jobs)

claim-active :
    (worker now : ℕ) (jobs : List Job) → active_count (claim worker now jobs).1 ≡ active_count jobs
unfolding claim
claim-active worker now [] = refl
claim-active worker now (j ∷ jobs) = ground (arith, claim-active worker now jobs)

renew_lease-active :
    (worker id now : ℕ) (jobs : List Job)
    → active_count (renew_lease worker id now jobs).1 ≡ active_count jobs
unfolding renew_lease
renew_lease-active worker id now [] = refl
renew_lease-active worker id now (j ∷ jobs) = ground (arith, renew_lease-active worker id now jobs)

progress-active :
    (worker id now : ℕ) (counts : Counters) (jobs : List Job)
    → active_count (progress worker id now counts jobs).1 ≡ active_count jobs
unfolding progress
progress-active worker id now counts [] = refl
progress-active worker id now counts (j ∷ jobs) =
    ground (arith, progress-active worker id now counts jobs)

finish-active :
    (worker id now : ℕ) (outcome : Outcome) (code : Option String) (counts : Counters)
    (jobs : List Job)
    → active_count (finish worker id now outcome code counts jobs) ≤ active_count jobs
unfolding finish
finish-active worker id now outcome code counts [] = omega arith
finish-active worker id now outcome code counts (j ∷ jobs) =
    ground (arith, finish-active worker id now outcome code counts jobs)

apply-active :
    (op : Op) (jobs : List Job) → active_count jobs ≤ 1 → active_count (apply op jobs) ≤ 1
unfolding apply
apply-active (enqueues id root depth user) jobs h =
    unfold enqueue_job in
    ground (arith, no_active jobs, active_count-append jobs (new_job id root depth user))
apply-active (cancels id now) jobs h = omega (arith, cancel_job-active id now jobs)
apply-active (claims worker now) jobs h = omega (arith, claim-active worker now jobs)
apply-active (renews worker id now) jobs h = omega (arith, renew_lease-active worker id now jobs)
apply-active (progresses worker id now counts) jobs h =
    omega (arith, progress-active worker id now counts jobs)
apply-active (finishes worker id now outcome code counts) jobs h =
    omega (arith, finish-active worker id now outcome code counts jobs)

-- From a queue with at most one job that waits or runs, every sequence of statements of the API and
-- of the workers leads to one.
pub apply_all-active :
    (ops : List Op) (jobs : List Job)
    → active_count jobs ≤ 1
    → active_count (apply_all ops jobs) ≤ 1
unfolding apply_all
apply_all-active [] jobs h = h
apply_all-active (op ∷ ops) jobs h = apply_all-active ops (apply op jobs) (apply-active op jobs h)
