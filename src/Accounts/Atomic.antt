-- ===== src/Accounts/Atomic.antt =====
-- The tables behind an error reply of the handlers of go_api/cmd/api/users.go.
use imageboard.Base.{inl, inr, ◌⊎◌, ap, sym, subst, ◌∙◌, ℕ, ◌≡◌, ◌≢◌, refl, Bool, true, false}
use imageboard.Text.{Bytes}
use imageboard.Accounts.Origin.{IsSameOrigin, account_write_lets_through}
use imageboard.Accounts.Guard.{Web, Headers, account_write}
use imageboard.Accounts.{
  Db, Env, Actor, stop, go, Ended, Reply, error, created, updated, no_content, reply_lost, Decoded,
  Request, create, update, reset, change_own, handle, create_user, update_user,
  set_account_password, reset_user_password, reset_found, change_own_password, create_user_tx,
  update_user_tx, set_password_tx, user_path_id, Ensures, conclude-Ensures, Ensures-commit,
  Ensures-check, Ensures-begin, Ensures-read, Ensures-exec, Ensures-audit, Ensures-when_audit,
  Ensures-assoc, update_audit, Result, write_reply, ◌>>◌, Ensures-reject, Ensures-or_stop,
  CreateBody, UpdateBody, PasswordBody, commit,
}

abbrev pub IsError : Reply → Type 0
IsError (error _ _) = Unit
IsError _ = ⊥

-- An error reply goes with the tables as they were.
abbrev Untouched : Db → Ended → Type 0
Untouched db e = IsError e.0 → e.1 ≡ db

module _ (env : Env) (db : Db) (actor : Actor) (known : env.commit_ends ≢ reply_lost) where
  same : (reply : Reply) → Untouched db (reply, db)
  same reply _ = refl

  -- A commit whose end is known, and a reply that is no error.
  commit-Untouched :
      (reply : Reply) {w : Db}
      → ¬ IsError reply
      → Ensures (Untouched db) db w (commit env >> write_reply reply)
  commit-Untouched reply no_error =
      Ensures-commit same env reply (λ lost. absurd (known lost)) (λ e. absurd (no_error e))

  create_user-Untouched : (d : Decoded CreateBody) → Untouched db (create_user env db actor d)
  unfolding create_user create_user_tx
  create_user-Untouched d = conclude-Ensures {P = Untouched db} db (
      Ensures-check same _ _ λ b. Ensures-reject same _ _ _ λ _.
        Ensures-or_stop same _ _ _ λ hash _. Ensures-begin same _ _ _ _ λ _ _ _ _.
          Ensures-reject same _ _ _ λ _. Ensures-read _ (
            Ensures-reject same _ _ _ λ _.
              Ensures-exec _ _ (Ensures-audit same _ _ _ _ _ _ λ _. commit-Untouched _ (λ e. e))))

  update_user-Untouched :
      (id : Bytes) (d : Decoded UpdateBody) → Untouched db (update_user env db actor id d)
  unfolding update_user update_user_tx update_audit
  update_user-Untouched id d = conclude-Ensures {P = Untouched db} db (
      Ensures-check same _ _ λ n. Ensures-check same _ _ λ b. Ensures-reject same _ _ _ λ _.
        Ensures-begin same _ _ _ _ λ _ _ _ _. Ensures-reject same _ _ _ λ _. Ensures-read _ (
          Ensures-or_stop same _ _ _ λ old _. Ensures-reject same _ _ _ λ _.
            Ensures-reject same _ _ _ λ _. Ensures-reject same _ _ _ λ _.
              Ensures-reject same _ _ _ λ _. Ensures-exec _ _ (
                Ensures-assoc _ _ _ (
                  Ensures-when_audit same _ _ _ _ _ _ _
                    λ _. Ensures-when_audit same _ _ _ _ _ _ _ λ _. commit-Untouched _ (λ e. e)))))

  set_account_password-Untouched :
      (id : ℕ) (own : Bool) (d : Decoded PasswordBody)
      → Untouched db (set_account_password env db actor id own d)
  unfolding set_account_password set_password_tx
  set_account_password-Untouched id own d = conclude-Ensures {P = Untouched db} db (
      Ensures-check same _ _ λ b. Ensures-reject same _ _ _ λ _.
        Ensures-or_stop same _ _ _ λ hash _. Ensures-begin same _ _ _ _ λ _ _ _ _.
          Ensures-reject same _ _ _ λ _. Ensures-read _ (
            Ensures-or_stop same _ _ _ λ old _. Ensures-reject same _ _ _ λ _.
              Ensures-reject same _ _ _ λ _.
                Ensures-exec _ _ (Ensures-audit same _ _ _ _ _ _ λ _. commit-Untouched _ (λ e. e))))

  reset_found-Untouched :
      (s : Result ℕ) (d : Decoded PasswordBody) → Untouched db (reset_found env db actor s d)
  unfolding reset_found
  reset_found-Untouched (stop reply) d = λ _. refl
  reset_found-Untouched (go n) d = set_account_password-Untouched n false d

handle_atomic :
    (env : Env) (db : Db) (actor : Actor) (r : Request)
    → env.commit_ends ≢ reply_lost
    → IsError (handle env db actor r).0
    → (handle env db actor r).1 ≡ db
unfolding handle
handle_atomic env db actor (create b) k = create_user-Untouched env db actor k b
handle_atomic env db actor (update id b) k = update_user-Untouched env db actor k id b
handle_atomic env db actor (reset id b) k =
    unfold reset_user_password in reset_found-Untouched env db actor k (user_path_id id) b
handle_atomic env db actor (change_own b) k =
    unfold change_own_password in set_account_password-Untouched env db actor k actor.id true b

IsError-cases : (r : Reply) → IsError r ⊎ (¬ IsError r)
IsError-cases (error status text) = inl tt
IsError-cases (created row) = inr (λ e. e)
IsError-cases (updated row) = inr (λ e. e)
IsError-cases no_content = inr (λ e. e)

-- A write behind `accountWrite`, in which no commit is made with its reply lost, leaves the accounts
-- and the audit log as they were, or its reply is no error and the request has JSON's media type and
-- the marker "account", its Sec-Fetch-Site is absent, same-origin or none, and its Origin is absent
-- or parses to the scheme and the host of the server and nothing else.
pub account_write-handle :
    (web : Web) (h : Headers) (env : Env) (db : Db) (actor : Actor) (r : Request)
    → env.commit_ends ≢ reply_lost
    → let (reply, db') = account_write web h (λ t. handle env t actor r) db in
      (db' ≡ db) ⊎ ((¬ IsError reply) × IsSameOrigin web h)
account_write-handle web h env db actor r known =
    elim (account_write_lets_through web h (λ t. handle env t actor r) db) [
      | inl same_tables ↦ inl same_tables
      | inr (through, own) ↦ elim (IsError-cases (handle env db actor r).0) [
        | inl e ↦ inl (ap (λ x. x.1) through ∙ handle_atomic env db actor r known e)
        | inr n ↦ inr (subst (λ x. ¬ IsError x.0) (sym through) n, own)
      ]
    ]
