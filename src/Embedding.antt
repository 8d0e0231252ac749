-- ===== src/Embedding.antt =====
-- The embedding worker, go_api/internal/embedding/worker.go, on the rows of one image: its job, its
-- stored embedding, and the tags and comments it is made of. A statement on an image reads no row
-- of another; which claimable row `Claim` takes is left open. The vectors are a parameter.
pub mod Fresh
pub mod Lease
mod Tests
use imageboard.Base.{
  ℕ, suc, ◌+◌, ◌*◌, ◌^◌, min, List, Bool, true, false, ◌&&◌, ◌||◌, not, Option, none, some, ltb,
  leb, ◌==◌, if◌then◌else◌,
}
use imageboard.Text.{Bytes, bytes_eq}

pub data Status : Type 0 where
  pending running ready empty failed : Status

-- `Source`
pub record Source : Type 0 where
  pub tags : List Bytes
  pub comments : List Bytes

-- The row in image_embedding, with its terms.
pub record Embedding (V : Type 0) : Type 0 where
  pub version : Bytes
  pub source_hash : Bytes
  pub built_revision : ℕ
  pub terms : V

pub record Item (V : Type 0) : Type 0 where
  pub revision : ℕ
  pub status : Status
  pub available_at : ℕ
  pub lease_token : Option ℕ
  pub lease_until : Option ℕ
  pub attempts : ℕ
  pub last_error : Bool
  pub completed_revision : ℕ
  pub source : Source
  pub embedding : Option (Embedding V)

-- `Job`: what a worker has claimed.
pub record Job : Type 0 where
  pub revision : ℕ
  pub token : ℕ
  pub attempts : ℕ

abbrev pub is_running : Status → Bool
is_running running = true
is_running _ = false

abbrev pub waits : Status → Bool
waits pending = true
waits failed = true
waits _ = false

abbrev pub is_before : Option ℕ → ℕ → Bool
is_before none now = false
is_before (some t) now = ltb t now

abbrev pub is_after : Option ℕ → ℕ → Bool
is_after none now = false
is_after (some t) now = ltb now t

abbrev pub is_some_eq : Option ℕ → ℕ → Bool
is_some_eq none n = false
is_some_eq (some m) n = m == n

abbrev pub lease_seconds : ℕ
lease_seconds = 120

-- The seconds after which a failed job is due again.
unfoldable pub retry_delay : ℕ → ℕ
retry_delay attempts = min 600 (5 * 2 ^ min attempts 7)

module _ {V : Type 0} where
  -- Waiting and due, or running under a lease that is over.
  unfoldable pub is_claimable : ℕ → Item V → Bool
  is_claimable now i =
      (waits i.status && leb i.available_at now)
      || (is_running i.status && is_before i.lease_until now)

  unfoldable pub claimed : ℕ → ℕ → Item V → Item V
  claimed token now i = record i {
    status = running;
    lease_token = some token;
    lease_until = some (now + lease_seconds);
    attempts = suc i.attempts;
  }

  -- The end of `Claim` on the row it takes.
  unfoldable pub claim : ℕ → ℕ → Item V → Option Job × Item V
  unfolding is_claimable claimed
  claim token now i =
      if is_claimable now i
      then (
        some (record { revision = i.revision; token = token; attempts = suc i.attempts }),
        claimed token now i,
      )
      else (none, i)

  -- `image_id = $1 AND revision = $2 AND lease_token = $3`
  unfoldable pub is_current : Job → Item V → Bool
  is_current job i = (i.revision == job.revision) && is_some_eq i.lease_token job.token

  -- `source`
  unfoldable pub read_source : Job → Item V → Option Source
  unfolding is_current
  read_source job i = if is_current job i then some i.source else none

  unfoldable pub renewed : ℕ → Item V → Item V
  renewed now i = record i { lease_until = some (now + lease_seconds) }

  -- The renewal of the lease while `Process` works; `false` cancels it.
  unfoldable pub renew : Job → ℕ → Item V → Bool × Item V
  unfolding is_current renewed
  renew job now i =
      if is_current job i && is_running i.status then (true, renewed now i) else (false, i)

  unfoldable pub is_publishable : Job → ℕ → Item V → Bool
  unfolding is_current
  is_publishable job now i = is_current job i && is_after i.lease_until now && is_running i.status

  -- The vector, or its absence if it has no terms.
  unfoldable pub stored : Bool → Bytes → Bytes → ℕ → V → Option (Embedding V)
  stored true version hash revision vector = none
  stored false version hash revision vector =
      some
        record { version = version; source_hash = hash; built_revision = revision; terms = vector }

  unfoldable pub published : Bool → Bytes → Bytes → Job → V → Item V → Item V
  unfolding stored
  published absent version hash job vector i = record i {
    status = if absent then empty else ready;
    completed_revision = i.revision;
    lease_token = none;
    lease_until = none;
    attempts = 0;
    last_error = false;
    embedding = stored absent version hash job.revision vector;
  }

  -- `Publish` of a worker that is configured for `version`, where the table says `setting`; `absent`
  -- says that the vector has no terms.
  unfoldable pub publish : Bytes → Bytes → Job → ℕ → Bool → Bytes → V → Item V → Bool × Item V
  unfolding is_publishable published
  publish setting version job now absent hash vector i =
      if is_publishable job now i && bytes_eq setting version
      then (true, published absent version hash job vector i)
      else (false, i)

  unfoldable pub put_off : Job → ℕ → Item V → Item V
  unfolding retry_delay
  put_off job now i = record i {
    status = failed;
    available_at = now + retry_delay job.attempts;
    lease_token = none;
    lease_until = none;
    last_error = true;
  }

  -- `Fail`
  unfoldable pub fail : Job → ℕ → Item V → Item V
  unfolding is_current put_off
  fail job now i = if is_current job i then put_off job now i else i

  -- What `Configure` does to a row when the version is a new one.
  unfoldable pub requeue : ℕ → Item V → Item V
  requeue now i = record i {
    revision = suc i.revision;
    status = pending;
    available_at = now;
    lease_token = none;
    lease_until = none;
    attempts = 0;
    last_error = false;
  }

  -- `Configure`: the setting and the row behind it.
  unfoldable pub configure : Bytes → ℕ → Bytes × Item V → Bytes × Item V
  unfolding requeue
  configure version now (setting, i) =
      if bytes_eq setting version then (setting, i) else (version, requeue now i)

  -- A change of the tags or comments: a trigger queues the image again, in the same transaction.
  unfoldable pub change_source : Source → ℕ → Item V → Item V
  unfolding requeue
  change_source source now i = record (requeue now i) { source = source }
