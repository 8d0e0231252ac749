-- ===== src/Accounts/Authority.antt =====
-- Who asks for a change: `beginAccountChange` of go_api/cmd/api/users.go in each handler.
use imageboard.Base.{ℕ, ◌≡◌, refl, Bool, true, false, not, some, arith, inl, inr, ||_false, ◌⊎◌}
use imageboard.Text.{Bytes}
use imageboard.Password.{verify_password}
use imageboard.Accounts.{
  Account, Db, Env, Actor, Step, stop, go, Ended, Decoded, Request, create, update, reset,
  change_own, find_account, is_admin, begin_account_change, handle, create_user, update_user,
  set_account_password, reset_user_password, reset_found, change_own_password, create_user_tx,
  update_user_tx, set_password_tx, user_path_id, Ensures, conclude-Ensures, Ensures-check,
  Ensures-begin, ensured, Result, Reply, Ensures-reject, Ensures-or_stop, CreateBody, UpdateBody,
  PasswordBody, ◌>>◌,
}

-- The actor's row says that the account exists, is not disabled, has the password of the request,
-- and is an administrator's where that is asked for.
pub record IsAuthorised (env : Env) (db : Db) (actor : Actor) (admin : Bool) : Type 0 where
  pub row : Account
  pub is_found : find_account actor.id db.users ≡ some row
  pub is_enabled : row.banned ≡ false
  pub has_password : verify_password env.derive row.password actor.password ≡ true
  pub has_role : admin ≡ true → is_admin row ≡ true

-- Does the request need an administrator?
abbrev pub needs_admin : Request → Bool
needs_admin (create _) = true
needs_admin (update _ _) = true
needs_admin (reset _ _) = true
needs_admin (change_own _) = false

-- The tables are as they were, or the actor was authorised.
abbrev Guarded : Env → Db → Actor → Bool → Ended → Type 0
Guarded env db actor admin e = (e.1 ≡ db) ⊎ IsAuthorised env db actor admin

module _ (env : Env) (db : Db) (actor : Actor) where
  -- Whatever follows `beginAccountChange` runs for an authorised actor only.
  Guarded-after_begin :
      (admin : Bool) (k : Step Reply)
      → Ensures (Guarded env db actor admin) db db (begin_account_change env actor admin >> k)
  Guarded-after_begin admin k =
      Ensures-begin (λ _. inl refl) env actor admin k
        λ a found enabled role. ensured (
          inr record {
            row = a;
            is_found = found;
            is_enabled = (||_false _ _ enabled).0;
            has_password = ground (arith, enabled);
            has_role = λ e. ground (arith, e, role);
          })

  create_user-Guarded :
      (d : Decoded CreateBody) → Guarded env db actor true (create_user env db actor d)
  unfolding create_user create_user_tx
  create_user-Guarded d = conclude-Ensures {P = Guarded env db actor true} db (
      Ensures-check (λ _. inl refl) _ _
        λ b.
          Ensures-reject (λ _. inl refl) _ _ _
            λ _. Ensures-or_stop (λ _. inl refl) _ _ _ λ hash _. Guarded-after_begin true _)

  update_user-Guarded :
      (id : Bytes) (d : Decoded UpdateBody)
      → Guarded env db actor true (update_user env db actor id d)
  unfolding update_user update_user_tx
  update_user-Guarded id d = conclude-Ensures {P = Guarded env db actor true} db (
      Ensures-check (λ _. inl refl) _ _
        λ n.
          Ensures-check (λ _. inl refl) _ _
            λ b. Ensures-reject (λ _. inl refl) _ _ _ λ _. Guarded-after_begin true _)

  set_account_password-Guarded :
      (id : ℕ) (own : Bool) (d : Decoded PasswordBody)
      → Guarded env db actor (not own) (set_account_password env db actor id own d)
  unfolding set_account_password set_password_tx
  set_account_password-Guarded id own d = conclude-Ensures {P = Guarded env db actor (not own)} db (
      Ensures-check (λ _. inl refl) _ _
        λ b.
          Ensures-reject (λ _. inl refl) _ _ _
            λ _. Ensures-or_stop (λ _. inl refl) _ _ _ λ hash _. Guarded-after_begin (not own) _)

  reset_found-Guarded :
      (s : Result ℕ) (d : Decoded PasswordBody)
      → Guarded env db actor true (reset_found env db actor s d)
  unfolding reset_found
  reset_found-Guarded (stop reply) d = inl refl
  reset_found-Guarded (go n) d = set_account_password-Guarded n false d

-- A write changes no table, unless the actor's row as read under the lock exists, is not disabled,
-- has the request's password, and is an administrator's where the request is not a change of
-- one's own password.
pub handle_guarded :
    (env : Env) (db : Db) (actor : Actor) (r : Request)
    → ((handle env db actor r).1 ≡ db) ⊎ IsAuthorised env db actor (needs_admin r)
unfolding handle
handle_guarded env db actor (create b) = create_user-Guarded env db actor b
handle_guarded env db actor (update id b) = update_user-Guarded env db actor id b
handle_guarded env db actor (reset id b) =
    unfold reset_user_password in reset_found-Guarded env db actor (user_path_id id) b
handle_guarded env db actor (change_own b) =
    unfold change_own_password in set_account_password-Guarded env db actor actor.id true b
