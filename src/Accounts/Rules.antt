-- ===== src/Accounts/Rules.antt =====
-- What holds of the reply and of the stored tables when a handler of go_api/cmd/api/users.go ends,
-- and the rules for the steps of Accounts/Transaction.antt.
use imageboard.Base.{
  ℕ, ◌≡◌, refl, Bool, true, false, not, ◌&&◌, ◌||◌, Option, none, some, String, List,
}
use imageboard.Password.{verify_password}
use imageboard.Accounts.Table.{Account, Db, Audit, find_account, is_admin}
use imageboard.Accounts.Transaction.{
  Reply, error, Session, Result, stop, go, Step, ◌>>=◌, ◌>>◌, check, reject_if, or_stop, when,
  begin_tx, read, exec, commit, commit_as, write_reply, Ended, ended, conclude, audit_account, Env,
  Site, Actor, Commit, committed, undone, reply_lost, begin_account_change,
}

-- From these stored tables, and with these in the transaction, the step ends as `P` says.
pub data Ensures (P : Ended → Type 0) (db working : Db) (m : Step Reply) : Type 0 where
  ensured : P (ended (m (record { stored = db; working = working }))) → Ensures P db working m

pub conclude-Ensures :
    {P : Ended → Type 0} (db : Db) {m : Step Reply} → Ensures P db db m → P (conclude db m)
conclude-Ensures db (ensured p) = p

resume_assoc :
    (P : Ended → Type 0) {A B : Type 0} (m : Step A) (f : A → Step B) (g : B → Step Reply)
    (s : Session) (r : Result A × Session)
    → m s ≡ r
    → P (ended ((m >>= λ a. f a >>= g) s))
    → P (ended (((m >>= f) >>= g) s))
unfolding ◌>>=◌
resume_assoc P m f g s (stop reply, s') e = rw e (λ p. p)
resume_assoc P m f g s (go a, s') e = rw e (λ p. p)

-- The rules while nothing is committed: `h` serves every step that ends the handler.
module _ {P : Ended → Type 0} {db : Db} (h : (reply : Reply) → P (reply, db)) where
  pub Ensures-reject :
      (b : Bool) (reply : Reply) (k : Step Reply) {w : Db}
      → (b ≡ false → Ensures P db w k)
      → Ensures P db w (reject_if b reply >> k)
  unfolding ◌>>=◌ reject_if
  Ensures-reject true reply k n = ensured (h reply)
  Ensures-reject false reply k n = elim (n refl) [ ensured p ↦ ensured p ]

  pub Ensures-or_stop :
      {A : Type 0} (o : Option A) (reply : Reply) (f : A → Step Reply) {w : Db}
      → ((a : A) → o ≡ some a → Ensures P db w (f a))
      → Ensures P db w (or_stop o reply >>= f)
  unfolding ◌>>=◌ or_stop
  Ensures-or_stop none reply f n = ensured (h reply)
  Ensures-or_stop (some a) reply f n = elim (n a refl) [ ensured p ↦ ensured p ]

  pub Ensures-check :
      {A : Type 0} (o : Result A) (f : A → Step Reply) {w : Db}
      → ((a : A) → Ensures P db w (f a))
      → Ensures P db w (check o >>= f)
  unfolding ◌>>=◌ check
  Ensures-check (stop reply) f n = ensured (h reply)
  Ensures-check (go a) f n = elim (n a) [ ensured p ↦ ensured p ]

  commit_as_lem :
      (c : Commit) (reply : Reply) {w : Db}
      → (c ≡ reply_lost → P (error 500 "Database unavailable", w))
      → P (reply, w)
      → Ensures P db w (commit_as c >> write_reply reply)
  unfolding ◌>>=◌ commit_as write_reply
  commit_as_lem committed reply l p = ensured p
  commit_as_lem undone reply l p = ensured (h _)
  commit_as_lem reply_lost reply l p = ensured (l refl)

  pub Ensures-commit :
      (env : Env) (reply : Reply) {w : Db}
      → (env.commit_ends ≡ reply_lost → P (error 500 "Database unavailable", w))
      → P (reply, w)
      → Ensures P db w (commit env >> write_reply reply)
  unfolding commit
  Ensures-commit env reply l p = commit_as_lem env.commit_ends reply l p

module _ {P : Ended → Type 0} {db : Db} where
  pub Ensures-assoc :
      {A B : Type 0} (m : Step A) (f : A → Step B) (g : B → Step Reply) {w : Db}
      → Ensures P db w (m >>= λ a. f a >>= g)
      → Ensures P db w ((m >>= f) >>= g)
  Ensures-assoc m f g (ensured p) = ensured (resume_assoc P m f g _ _ refl p)

  pub Ensures-read :
      (f : Db → Step Reply) {w : Db} → Ensures P db w (f w) → Ensures P db w (read >>= f)
  unfolding ◌>>=◌ read
  Ensures-read f (ensured p) = ensured p

  pub Ensures-begin_tx :
      (k : Step Reply) {w : Db} → Ensures P db db k → Ensures P db w (begin_tx >> k)
  unfolding ◌>>=◌ begin_tx
  Ensures-begin_tx k (ensured p) = ensured p

  pub Ensures-exec :
      (f : Db → Db) (k : Step Reply) {w : Db} → Ensures P db (f w) k → Ensures P db w (exec f >> k)
  unfolding ◌>>=◌ exec
  Ensures-exec f k (ensured p) = ensured p

  Ensures-when :
      (b : Bool) (m : Step (Unit {0})) (k : Step Reply) {w : Db}
      → Ensures P db w k
      → Ensures P db w (m >> k)
      → Ensures P db w (when b m >> k)
  unfolding ◌>>=◌ when
  Ensures-when true m k (ensured p) (ensured q) = ensured q
  Ensures-when false m k (ensured p) (ensured q) = ensured p

module _ {P : Ended → Type 0} {db : Db} (h : (reply : Reply) → P (reply, db)) where
  pub Ensures-audit :
      (env : Env) (site : Site) (actor : ℕ) (action : String) (object : ℕ) (k : Step Reply) {w : Db}
      → ((log : List Audit) → Ensures P db (record w { audit = log }) k)
      → Ensures P db w (audit_account env site actor action object >> k)
  unfolding audit_account
  Ensures-audit env site actor action object k n =
      Ensures-assoc _ _ _ (Ensures-reject h _ _ _ λ _. Ensures-exec _ _ (n _))

  pub Ensures-when_audit :
      (b : Bool) (env : Env) (site : Site) (actor : ℕ) (action : String) (object : ℕ)
      (k : Step Reply) {w : Db}
      → ((log : List Audit) → Ensures P db (record w { audit = log }) k)
      → Ensures P db w (when b (audit_account env site actor action object) >> k)
  Ensures-when_audit b env site actor action object k {w} n =
      Ensures-when b _ k (n w.audit) (Ensures-audit env site actor action object k n)

  -- Behind `beginAccountChange`, the actor's row has been found under the lock and let through.
  pub Ensures-begin :
      (env : Env) (actor : Actor) (admin : Bool) (k : Step Reply) {w : Db}
      → ((a : Account)
          → find_account actor.id db.users ≡ some a
          → (a.banned || not (verify_password env.derive a.password actor.password)) ≡ false
          → (admin && not (is_admin a)) ≡ false
          → Ensures P db db k)
      → Ensures P db w (begin_account_change env actor admin >> k)
  unfolding begin_account_change
  Ensures-begin env actor admin k n = Ensures-assoc _ _ _ (
      Ensures-reject h _ _ _ λ _. Ensures-assoc _ _ _ (
        Ensures-begin_tx _ (
          Ensures-assoc _ _ _ (
            Ensures-reject h _ _ _ λ _. Ensures-assoc _ _ _ (
              Ensures-reject h _ _ _ λ _. Ensures-assoc _ _ _ (
                Ensures-read _ (
                  Ensures-assoc _ _ _ (
                    Ensures-or_stop h _ _ _ λ a found. Ensures-assoc _ _ _ (
                      Ensures-reject h _ _ _
                        λ enabled. Ensures-reject h _ _ _ λ role. n a found enabled role)))))))))
