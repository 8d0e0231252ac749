-- ===== src/Accounts/Transaction.antt =====
-- Replies, what the environment decides, and `beginAccountChange`.
use imageboard.Base.{
  ℕ, Bool, true, false, ◌&&◌, ◌||◌, not, Option, none, some, String, ◌∷◌, [], ◌++◌,
}
use imageboard.Text.{Bytes}
use imageboard.Password.{Derive, verify_password}
use imageboard.Accounts.Table.{Account, Db, is_admin, find_account, event}

pub data Reply : Type 0 where
  error : ℕ → String → Reply
  created : Account → Reply
  updated : Account → Reply
  no_content : Reply

-- The statements of a handler, any of which the database may fail.
pub data Site : Type 0 where
  begin lock actor_row target_row count_admins write_row first_audit second_audit : Site

-- A commit that reports an error may have been undone, or made with its reply lost.
pub data Commit : Type 0 where
  committed undone reply_lost : Commit

-- `random` is the salt's 16 bytes or the failure of `rand.Read`; `new_id` is the serial's value.
pub record Env : Type 0 where
  pub fails : Site → Bool
  pub commit_ends : Commit
  pub derive : Derive
  pub random : Option Bytes
  pub new_id : ℕ

-- The user that `withAuth` found, and the password of the request's Basic credentials.
pub record Actor : Type 0 where
  pub id : ℕ
  pub password : Bytes

pub record CreateBody : Type 0 where
  pub name : Bytes
  pub password : Bytes
  pub admin : Bool

pub record UpdateBody : Type 0 where
  pub admin : Option Bool
  pub disabled : Option Bool

pub record PasswordBody : Type 0 where
  pub password : Bytes
  pub current_password : Bytes

-- What the JSON decoder makes of the request's body.
pub data Decoded {ℓ} (A : Type ℓ) : Type ℓ where
  malformed trailing : Decoded A
  body : A → Decoded A

-- What a handler has of the database: the tables as they are stored, and as its transaction has them.
pub record Session : Type 0 where
  pub stored : Db
  pub working : Db

-- A step goes on with a value, or ends the handler with a reply.
pub data Result {ℓ} (A : Type ℓ) : Type ℓ where
  stop : Reply → Result A
  go : A → Result A

abbrev pub Step {ℓ} : Type ℓ → Type ℓ
Step A = Session → Result A × Session

resume {ℓ κ} : {A : Type ℓ} {B : Type κ} → Result A × Session → (A → Step B) → Result B × Session
resume (stop r, s) f = (stop r, s)
resume (go a, s) f = f a s

infixl 5 ◌>>=◌ ◌>>◌
unfoldable pub ◌>>=◌ {ℓ κ} : {A : Type ℓ} {B : Type κ} → Step A → (A → Step B) → Step B
unfolding resume
◌>>=◌ m f s = resume (m s) f

abbrev pub ◌>>◌ {κ} : {B : Type κ} → Step (Unit {0}) → Step B → Step B
m >> k = m >>= λ _. k

-- A step that does not touch the database.
unfoldable pub check {ℓ} : {A : Type ℓ} → Result A → Step A
check o s = (o, s)

unfoldable pub reject_if : Bool → Reply → Step (Unit {0})
reject_if true reply s = (stop reply, s)
reject_if false reply s = (go tt, s)

unfoldable pub or_stop {ℓ} : {A : Type ℓ} → Option A → Reply → Step A
or_stop none reply s = (stop reply, s)
or_stop (some a) reply s = (go a, s)

unfoldable pub when : Bool → Step (Unit {0}) → Step (Unit {0})
when true m s = m s
when false m s = (go tt, s)

abbrev pub is_none {ℓ} : {A : Type ℓ} → Option A → Bool
is_none none = true
is_none (some _) = false

abbrev pub bool_eq : Bool → Bool → Bool
bool_eq true b = b
bool_eq false b = not b

-- `pool.Begin`
unfoldable pub begin_tx : Step (Unit {0})
begin_tx s = (go tt, record s { working = s.stored })

-- What a query of the transaction reads.
unfoldable pub read : Step Db
read s = (go s.working, s)

-- A statement that writes: in the transaction only.
unfoldable pub exec : (Db → Db) → Step (Unit {0})
exec f s = (go tt, record s { working = f s.working })

unfoldable pub commit_as : Commit → Step (Unit {0})
commit_as committed s = (go tt, record s { stored = s.working })
commit_as undone s = (stop (error 500 "Database unavailable"), s)
commit_as reply_lost s = (stop (error 500 "Database unavailable"), record s { stored = s.working })

-- `tx.Commit`
unfoldable pub commit : Env → Step (Unit {0})
unfolding commit_as
commit env = commit_as env.commit_ends

unfoldable pub write_reply : Reply → Step Reply
write_reply reply s = (go reply, s)

-- The reply and the stored tables, when the handler has come to its end.
abbrev pub Ended : Type 0
Ended = Reply × Db

-- The deferred `tx.Rollback` gives up what the transaction has not committed.
abbrev rollback : Session → Session
rollback s = record s { working = s.stored }

abbrev pub ended : Result Reply × Session → Ended
ended (stop reply, s) = (reply, (rollback s).stored)
ended (go reply, s) = (reply, (rollback s).stored)

abbrev pub conclude : Db → Step Reply → Ended
conclude db m = ended (m (record { stored = db; working = db }))

-- `auditAccount`
unfoldable pub audit_account : Env → Site → ℕ → String → ℕ → Step (Unit {0})
audit_account env site actor action object = do
  reject_if (env.fails site) (error 500 "Database unavailable")
  exec λ db. record db { audit = db.audit ++ event actor action object ∷ [] }

-- `beginAccountChange`: the actor is read again, under the lock.
unfoldable pub begin_account_change : Env → Actor → Bool → Step (Unit {0})
begin_account_change env actor admin = do
  reject_if (env.fails begin) (error 500 "Database unavailable")
  begin_tx
  reject_if (env.fails lock) (error 500 "Database unavailable")
  reject_if (env.fails actor_row) (error 500 "Database unavailable")
  db ← read
  a ← or_stop (find_account actor.id db.users) (error 401 "Authentication required")
  reject_if (a.banned || not (verify_password env.derive a.password actor.password))
      (error 401 "Authentication required")
  reject_if (admin && not (is_admin a)) (error 403 "Administrator access required")
