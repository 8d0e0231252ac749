-- ===== src/Index/Jobs.antt =====
-- The table index_job, in the order of `created_at`, and each statement on it. Times are seconds;
-- an id stands for a uuid, and a worker's name for a number.
pub mod Active
pub mod Fence
pub mod Served
use imageboard.Base.{
  ℕ, suc, ◌+◌, ◌∷◌, [], ◌++◌, List, Bool, true, false, ◌&&◌, ◌||◌, not, Option, none, some, ltb,
  ◌==◌, if◌then◌else◌, String,
}
use imageboard.Text.{Bytes}

pub data Status : Type 0 where
  pending running succeeded failed cancelled : Status

-- `counters`
pub record Counters : Type 0 where
  pub discovered : ℕ
  pub processed : ℕ
  pub indexed : ℕ
  pub updated : ℕ
  pub skipped : ℕ
  pub errors : ℕ
  pub deindexed : ℕ

abbrev pub no_counts : Counters
no_counts = record {
  discovered = 0;
  processed = 0;
  indexed = 0;
  updated = 0;
  skipped = 0;
  errors = 0;
  deindexed = 0;
}

pub record Job : Type 0 where
  pub id : ℕ
  pub root_path : Bytes
  pub max_depth : Option ℕ
  pub requested_by : Option ℕ
  pub status : Status
  pub worker : Option ℕ
  pub lease_expires : Option ℕ
  pub started : Option ℕ
  pub finished : Option ℕ
  pub counts : Counters
  pub error_code : Option String

abbrev pub lease_seconds : ℕ
lease_seconds = 60

-- `status IN ('pending', 'running')`
abbrev pub is_active : Status → Bool
is_active pending = true
is_active running = true
is_active _ = false

abbrev pub is_pending : Status → Bool
is_pending pending = true
is_pending _ = false

abbrev pub is_running : Status → Bool
is_running running = true
is_running _ = false

abbrev pub is_before : Option ℕ → ℕ → Bool
is_before none now = false
is_before (some t) now = ltb t now

abbrev pub is_some_eq : Option ℕ → ℕ → Bool
is_some_eq none n = false
is_some_eq (some m) n = m == n

abbrev pub or_now : Option ℕ → ℕ → Option ℕ
or_now none now = some now
or_now (some t) now = some t

unfoldable pub find_job : ℕ → List Job → Option Job
find_job id [] = none
find_job id (j ∷ rest) = if j.id == id then some j else find_job id rest

-- `activeJob`
unfoldable pub active_job : List Job → Option Job
active_job [] = none
active_job (j ∷ rest) = if is_active j.status then some j else active_job rest

abbrev pub new_job : ℕ → Bytes → Option ℕ → ℕ → Job
new_job id root_path max_depth user = record {
  id = id;
  root_path = root_path;
  max_depth = max_depth;
  requested_by = some user;
  status = pending;
  worker = none;
  lease_expires = none;
  started = none;
  finished = none;
  counts = no_counts;
  error_code = none;
}

-- The INSERT of `enqueueJob`, on a canonical path: the unique index admits one active job, and on
-- its violation the active job is the answer.
abbrev insert_or_active : Option Job → Job → List Job → Option Job × List Job
insert_or_active none job jobs = (some job, jobs ++ job ∷ [])
insert_or_active (some active) job jobs = (some active, jobs)

unfoldable pub enqueue_job : ℕ → Bytes → Option ℕ → ℕ → List Job → Option Job × List Job
enqueue_job id root_path max_depth user jobs =
    insert_or_active (active_job jobs) (new_job id root_path max_depth user) jobs

-- `cancelJob`
unfoldable pub cancel_job : ℕ → ℕ → List Job → List Job
cancel_job id now [] = []
cancel_job id now (j ∷ rest) =
    (if (j.id == id) && is_active j.status
      then record j { status = cancelled; finished = some now }
      else j)
    ∷ cancel_job id now rest

-- Waiting, or running under a lease that is over.
unfoldable pub is_claimable : ℕ → Job → Bool
is_claimable now j = is_pending j.status || (is_running j.status && is_before j.lease_expires now)

unfoldable pub claimed : ℕ → ℕ → Job → Job
claimed worker now j = record j {
  status = running;
  worker = some worker;
  lease_expires = some (now + lease_seconds);
  started = or_now j.started now;
  finished = none;
  counts = no_counts;
  error_code = none;
}

-- `claim`: the first job that may be claimed.
unfoldable pub claim : ℕ → ℕ → List Job → Option Job × List Job
unfolding is_claimable claimed
claim worker now [] = (none, [])
claim worker now (j ∷ rest) =
    let later = claim worker now rest in
    if is_claimable now j
    then (some (claimed worker now j), claimed worker now j ∷ rest)
    else (later.0, j ∷ later.1)

-- `WHERE id = $1 AND status = 'running' AND worker_id = …`
unfoldable pub holds_lease : ℕ → ℕ → Job → Bool
holds_lease worker id j = (j.id == id) && is_running j.status && is_some_eq j.worker worker

-- `renewLease`: is the lease still held?
unfoldable pub renew_lease : ℕ → ℕ → ℕ → List Job → Bool × List Job
unfolding holds_lease
renew_lease worker id now [] = (false, [])
renew_lease worker id now (j ∷ rest) =
    let (held, rest') = renew_lease worker id now rest in
    if holds_lease worker id j
    then (true, record j { lease_expires = some (now + lease_seconds) } ∷ rest')
    else (held, j ∷ rest')

-- `progress`: is the lease still held? `deindexed` is not written.
unfoldable pub progress : ℕ → ℕ → ℕ → Counters → List Job → Bool × List Job
unfolding holds_lease
progress worker id now counts [] = (false, [])
progress worker id now counts (j ∷ rest) =
    let (held, rest') = progress worker id now counts rest in
    if holds_lease worker id j
    then (
      true,
      record j {
        lease_expires = some (now + lease_seconds);
        counts = record counts { deindexed = j.counts.deindexed };
      }
          ∷ rest',
    )
    else (held, j ∷ rest')

-- The statuses that `process` hands to `finish`.
pub data Outcome : Type 0 where
  succeed fail cancel : Outcome

abbrev pub outcome_status : Outcome → Status
outcome_status succeed = succeeded
outcome_status fail = failed
outcome_status cancel = cancelled

-- `finish`: `WHERE id = $1 AND worker_id = $11`, whatever the status is.
unfoldable pub finish : ℕ → ℕ → ℕ → Outcome → Option String → Counters → List Job → List Job
finish worker id now outcome code counts [] = []
finish worker id now outcome code counts (j ∷ rest) =
    (if (j.id == id) && is_some_eq j.worker worker
      then record j {
        status = outcome_status outcome;
        lease_expires = none;
        finished = some now;
        counts = counts;
        error_code = code;
      }
      else j)
    ∷ finish worker id now outcome code counts rest

-- `cancelled`: a job that is not found counts as cancelled.
abbrev pub is_cancelled_row : Option Job → Bool
is_cancelled_row none = true
is_cancelled_row (some j) = elim j.status [ cancelled ↦ true | _ ↦ false ]

unfoldable pub is_cancelled : ℕ → List Job → Bool
is_cancelled id jobs = is_cancelled_row (find_job id jobs)

-- One statement of the API or of a worker on the queue.
pub data Op : Type 0 where
  enqueues : ℕ → Bytes → Option ℕ → ℕ → Op
  cancels : ℕ → ℕ → Op
  claims : ℕ → ℕ → Op
  renews : ℕ → ℕ → ℕ → Op
  progresses : ℕ → ℕ → ℕ → Counters → Op
  finishes : ℕ → ℕ → ℕ → Outcome → Option String → Counters → Op

unfoldable pub apply : Op → List Job → List Job
apply (enqueues id root depth user) jobs = (enqueue_job id root depth user jobs).1
apply (cancels id now) jobs = cancel_job id now jobs
apply (claims worker now) jobs = (claim worker now jobs).1
apply (renews worker id now) jobs = (renew_lease worker id now jobs).1
apply (progresses worker id now counts) jobs = (progress worker id now counts jobs).1
apply (finishes worker id now outcome code counts) jobs =
    finish worker id now outcome code counts jobs

-- Statements of the API and of any number of workers, in any order.
unfoldable pub apply_all : List Op → List Job → List Job
apply_all [] jobs = jobs
apply_all (op ∷ ops) jobs = apply_all ops (apply op jobs)
