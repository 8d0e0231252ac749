-- ===== src/Index/Jobs/Fence.antt =====
-- A job that another worker has claimed, or that was cancelled: index_worker/cmd/index-worker/main.go
-- `claim`, `progress`, `renewLease` and `finish`.
use imageboard.Base.{
  ℕ, ◌≡◌, ◌≢◌, refl, Bool, true, false, ◌&&◌, ◌||◌, ◌==◌, List, [], ◌∷◌, Option, none, some, arith,
  String, if◌then◌else◌,
}
use imageboard.Index.Jobs.{
  Job, Counters, Outcome, is_active, find_job, cancel_job, claim, renew_lease, progress, finish,
  outcome_status, is_some_eq, Status,
}

unfoldable pub id_taken : ℕ → List Job → Bool
id_taken id [] = false
id_taken id (j ∷ rest) = (j.id == id) || id_taken id rest

abbrev pub UniqueIds : List Job → Type 0
UniqueIds [] = Unit
UniqueIds (j ∷ rest) = (id_taken j.id rest ≡ false) × UniqueIds rest

module _ (worker id now : ℕ) where
  finish_absent :
      (outcome : Outcome) (code : Option String) (counts : Counters) (jobs : List Job)
      → id_taken id jobs ≡ false
      → finish worker id now outcome code counts jobs ≡ jobs
  unfolding finish id_taken
  finish_absent outcome code counts [] h = refl
  finish_absent outcome code counts (j ∷ jobs) h =
      ground (arith, finish_absent outcome code counts jobs)

  progress_absent :
      (counts : Counters) (jobs : List Job)
      → id_taken id jobs ≡ false
      → progress worker id now counts jobs ≡ (false, jobs)
  unfolding progress id_taken
  progress_absent counts [] h = refl
  progress_absent counts (j ∷ jobs) h = ground (arith, progress_absent counts jobs)

  renew_lease_absent :
      (jobs : List Job) → id_taken id jobs ≡ false → renew_lease worker id now jobs ≡ (false, jobs)
  unfolding renew_lease id_taken
  renew_lease_absent [] h = refl
  renew_lease_absent (j ∷ jobs) h = ground (arith, renew_lease_absent jobs)

id_taken-claim :
    (id worker now : ℕ) (jobs : List Job) → id_taken id (claim worker now jobs).1 ≡ id_taken id jobs
unfolding id_taken claim
id_taken-claim id worker now [] = refl
id_taken-claim id worker now (j ∷ jobs) = ground (arith, id_taken-claim id worker now jobs)

claimed_taken :
    (worker now : ℕ) (jobs : List Job) (j : Job)
    → (claim worker now jobs).0 ≡ some j
    → id_taken j.id jobs ≡ true
unfolding claim id_taken
claimed_taken worker now [] j h = ground arith
claimed_taken worker now (x ∷ jobs) j h = ground (arith, claimed_taken worker now jobs j)

module _ (old new now later : ℕ) (ne : old ≢ new) where
  finish-claim :
      (outcome : Outcome) (code : Option String) (counts : Counters) (jobs : List Job) (j : Job)
      → UniqueIds jobs
      → (claim new now jobs).0 ≡ some j
      → finish old j.id later outcome code counts (claim new now jobs).1 ≡ (claim new now jobs).1
  unfolding claim finish
  finish-claim outcome code counts [] j u h = absurd (ground arith)
  finish-claim outcome code counts (x ∷ jobs) j u h = ground (
    arith,
    finish_absent old x.id later outcome code counts jobs u.0,
    finish-claim outcome code counts jobs j u.1,
    claimed_taken new now jobs j,
  )

  progress-claim :
      (counts : Counters) (jobs : List Job) (j : Job)
      → UniqueIds jobs
      → (claim new now jobs).0 ≡ some j
      → progress old j.id later counts (claim new now jobs).1 ≡ (false, (claim new now jobs).1)
  unfolding claim progress
  progress-claim counts [] j u h = absurd (ground arith)
  progress-claim counts (x ∷ jobs) j u h = ground (
    arith,
    progress_absent old x.id later counts jobs u.0,
    progress-claim counts jobs j u.1,
    claimed_taken new now jobs j,
  )

  renew_lease-claim :
      (jobs : List Job) (j : Job)
      → UniqueIds jobs
      → (claim new now jobs).0 ≡ some j
      → renew_lease old j.id later (claim new now jobs).1 ≡ (false, (claim new now jobs).1)
  unfolding claim renew_lease
  renew_lease-claim [] j u h = absurd (ground arith)
  renew_lease-claim (x ∷ jobs) j u h = ground (
    arith,
    renew_lease_absent old x.id later jobs u.0,
    renew_lease-claim jobs j u.1,
    claimed_taken new now jobs j,
  )

-- Where another worker has claimed a job, the first worker's statements on it change nothing, and
-- `progress` and `renewLease` tell it that its lease is lost. Ids are unique.
pub claim_fences :
    (old new now later : ℕ) (outcome : Outcome) (code : Option String) (counts : Counters)
    (jobs : List Job) (j : Job)
    → old ≢ new
    → UniqueIds jobs
    → (claim new now jobs).0 ≡ some j
    → let jobs' = (claim new now jobs).1 in
      (finish old j.id later outcome code counts jobs' ≡ jobs')
      × (progress old j.id later counts jobs' ≡ (false, jobs'))
      × (renew_lease old j.id later jobs' ≡ (false, jobs'))
claim_fences old new now later outcome code counts jobs j ne u h = (
  finish-claim old new now later ne outcome code counts jobs j u h,
  progress-claim old new now later ne counts jobs j u h,
  renew_lease-claim old new now later ne jobs j u h,
)

unfoldable pub cancelled_row : ℕ → ℕ → Job → Job
cancelled_row id now j =
    if (j.id == id) && is_active j.status
    then record j { status = Status.cancelled; finished = some now }
    else j

unfoldable pub finished_row : ℕ → ℕ → ℕ → Outcome → Option String → Counters → Job → Job
finished_row worker id now outcome code counts j =
    if (j.id == id) && is_some_eq j.worker worker
    then record j {
      status = outcome_status outcome;
      lease_expires = none;
      finished = some now;
      counts = counts;
      error_code = code;
    }
    else j

find_job-id : (id : ℕ) (jobs : List Job) (j : Job) → find_job id jobs ≡ some j → j.id ≡ id
unfolding find_job
find_job-id id [] j f = ground arith
find_job-id id (x ∷ jobs) j f = ground (arith, find_job-id id jobs j)

find_job-cancel_job :
    (id now : ℕ) (jobs : List Job) (j : Job)
    → find_job id jobs ≡ some j
    → find_job id (cancel_job id now jobs) ≡ some (cancelled_row id now j)
unfolding find_job cancel_job cancelled_row
find_job-cancel_job id now [] j f = ground arith
find_job-cancel_job id now (x ∷ jobs) j f = ground (arith, find_job-cancel_job id now jobs j)

find_job-finish :
    (worker id now : ℕ) (outcome : Outcome) (code : Option String) (counts : Counters)
    (jobs : List Job) (j : Job)
    → find_job id jobs ≡ some j
    → find_job id (finish worker id now outcome code counts jobs)
      ≡ some (finished_row worker id now outcome code counts j)
unfolding find_job finish finished_row
find_job-finish worker id now outcome code counts [] j f = ground arith
find_job-finish worker id now outcome code counts (x ∷ jobs) j f =
    ground (arith, find_job-finish worker id now outcome code counts jobs j)

finished_after :
    (worker id now later : ℕ) (outcome : Outcome) (code : Option String) (counts : Counters)
    (j : Job)
    → j.id ≡ id
    → is_some_eq j.worker worker ≡ true
    → (finished_row worker id later outcome code counts (cancelled_row id now j)).status
      ≡ outcome_status outcome
unfolding finished_row cancelled_row
finished_after worker id now later outcome code counts j e o = ground arith

-- A job that its worker holds and that is cancelled, and that the worker then finishes, has the
-- worker's outcome in the end: the cancellation is overwritten.
pub finish-cancel_job :
    (worker id now later : ℕ) (outcome : Outcome) (code : Option String) (counts : Counters)
    (jobs : List Job) (j : Job)
    → find_job id jobs ≡ some j
    → is_some_eq j.worker worker ≡ true
    → (k : Job) × (find_job id (finish worker id later outcome code counts (cancel_job id now jobs))
        ≡ some k)
      × (k.status ≡ outcome_status outcome)
finish-cancel_job worker id now later outcome code counts jobs j f o = (
  finished_row worker id later outcome code counts (cancelled_row id now j),
  find_job-finish worker id later outcome code counts (cancel_job id now jobs)
      (cancelled_row id now j) (find_job-cancel_job id now jobs j f),
  finished_after worker id now later outcome code counts j (find_job-id id jobs j f) o,
)
