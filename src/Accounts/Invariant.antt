-- ===== src/Accounts/Invariant.antt =====
-- The account table before and after the handlers of go_api/cmd/api/users.go.
mod Rows
pub use Rows.{IsValid, UniqueIds, UniqueNames, active_admins}
use imageboard.Base.{
  ℕ, ◌≤◌, ◌<◌, ◌≡◌, ◌==◌, ◌++◌, refl, ◌∷◌, [], List, Bool, true, false, Option, none, some, arith,
  inl, inr, Bool-cases, ◌||◌, ◌&&◌, not, ||_false,
}
use imageboard.Text.{Bytes}
use Rows.{
  set_status-UniqueIds, set_status-UniqueNames, other_admins-le, set_status_active,
  is_active_admin-with_status, other_admins_all, set_password-IsValid, append-IsValid,
}
use imageboard.Accounts.Table
use imageboard.Accounts.Transaction
use imageboard.Accounts.{
  Account, Db, Env, Actor, Step, stop, go, Ended, Reply, conclude, Decoded, CreateBody, UpdateBody,
  PasswordBody, Request, create, update, reset, change_own, find_account, set_status, set_password,
  other_admins, is_active_admin, with_status, name_taken, id_taken, new_account, handle,
  create_user, update_user, set_account_password, reset_user_password, reset_found,
  change_own_password, create_user_tx, update_user_tx, set_password_tx, user_path_id, is_admin,
  or_old, Ensures, conclude-Ensures, Ensures-commit, Ensures-check, Ensures-reject, Ensures-or_stop,
  Ensures-begin, Ensures-read, Ensures-exec, Ensures-audit, Ensures-when_audit, Ensures-assoc,
  update_audit,
}

abbrev IsValidDb : Ended → Type 0
IsValidDb (_, db) = IsValid db.users

-- The last-administrator guard: with another active administrator left, or no administrator taken
-- away, the new status leaves one.
set_status-IsValid :
    (id : ℕ) (admin disabled : Bool) (us : List Account) (old : Account)
    → IsValid us
    → find_account id us ≡ some old
    → ((is_active_admin old && (not admin || disabled)) && (other_admins id us == 0)) ≡ false
    → IsValid (set_status id admin disabled us)
set_status-IsValid id admin disabled us old v f guarded = record {
  ids = set_status-UniqueIds id admin disabled us v.ids;
  names = set_status-UniqueNames id admin disabled us v.names;
  has_admin = ground (
    arith,
    other_admins-le id admin disabled us,
    set_status_active id admin disabled us old f,
    is_active_admin-with_status admin disabled old,
    other_admins_all id us v.ids f,
    v.has_admin,
  );
}

update_user_tx-Ensures :
    (env : Env) (db : Db) (actor : Actor) (id : ℕ) (b : UpdateBody) {w : Db}
    → IsValid db.users
    → Ensures IsValidDb db w (update_user_tx env actor id b)
unfolding update_user_tx update_audit
update_user_tx-Ensures env db actor id b v =
    Ensures-begin (λ _. v) _ _ _ _
      λ _ _ _ _.
        Ensures-reject (λ _. v) _ _ _
          λ _. Ensures-read _ (
            Ensures-or_stop (λ _. v) _ _ _
              λ old found.
                Ensures-reject (λ _. v) _ _ _
                  λ _.
                    Ensures-reject (λ _. v) _ _ _
                      λ _.
                        Ensures-reject (λ _. v) _ _ _
                          λ guarded.
                            Ensures-reject (λ _. v) _ _ _
                              λ _. Ensures-exec _ _ (
                                Ensures-assoc _ _ _ (
                                  Ensures-when_audit (λ _. v) _ _ _ _ _ _ _
                                    λ _.
                                      Ensures-when_audit (λ _. v) _ _ _ _ _ _ _
                                        λ _.
                                          let after =
                                            set_status-IsValid id _ _ db.users old v found
                                              guarded in
                                          Ensures-commit (λ _. v) _ _ (λ _. after) after)))

create_user_tx-Ensures :
    (env : Env) (db : Db) (actor : Actor) (b : CreateBody) (hash : Bytes) {w : Db}
    → IsValid db.users
    → Ensures IsValidDb db w (create_user_tx env actor b hash)
unfolding create_user_tx new_account
create_user_tx-Ensures env db actor b hash v =
    Ensures-begin (λ _. v) _ _ _ _
      λ _ _ _ _.
        Ensures-reject (λ _. v) _ _ _
          λ _. Ensures-read _ (
            Ensures-reject (λ _. v) _ _ _
              λ fresh. Ensures-exec _ _ (
                Ensures-audit (λ _. v) _ _ _ _ _ _
                  λ _.
                    let after =
                      append-IsValid (new_account env.new_id b.name hash b.admin) db.users v
                        (||_false _ _ fresh).1 (||_false _ _ fresh).0 in
                    Ensures-commit (λ _. v) _ _ (λ _. after) after))

set_password_tx-Ensures :
    (env : Env) (db : Db) (actor : Actor) (id : ℕ) (own : Bool) (b : PasswordBody) (hash : Bytes)
    {w : Db}
    → IsValid db.users
    → Ensures IsValidDb db w (set_password_tx env actor id own b hash)
unfolding set_password_tx
set_password_tx-Ensures env db actor id own b hash v =
    Ensures-begin (λ _. v) _ _ _ _
      λ _ _ _ _.
        Ensures-reject (λ _. v) _ _ _
          λ _. Ensures-read _ (
            Ensures-or_stop (λ _. v) _ _ _
              λ old found.
                Ensures-reject (λ _. v) _ _ _
                  λ _.
                    Ensures-reject (λ _. v) _ _ _
                      λ _. Ensures-exec _ _ (
                        Ensures-audit (λ _. v) _ _ _ _ _ _
                          λ _.
                            let after = set_password-IsValid id hash db.users v in
                            Ensures-commit (λ _. v) _ _ (λ _. after) after))

create_user-IsValid :
    (env : Env) (db : Db) (actor : Actor) (d : Decoded CreateBody)
    → IsValid db.users
    → IsValid (create_user env db actor d).1.users
unfolding create_user
create_user-IsValid env db actor d v = conclude-Ensures {P = IsValidDb} db (
    Ensures-check (λ _. v) _ _
      λ b.
        Ensures-reject (λ _. v) _ _ _
          λ _.
            Ensures-or_stop (λ _. v) _ _ _ λ hash _. create_user_tx-Ensures env db actor b hash v)

update_user-IsValid :
    (env : Env) (db : Db) (actor : Actor) (id : Bytes) (d : Decoded UpdateBody)
    → IsValid db.users
    → IsValid (update_user env db actor id d).1.users
unfolding update_user
update_user-IsValid env db actor id d v = conclude-Ensures {P = IsValidDb} db (
    Ensures-check (λ _. v) _ _
      λ n.
        Ensures-check (λ _. v) _ _
          λ b. Ensures-reject (λ _. v) _ _ _ λ _. update_user_tx-Ensures env db actor n b v)

set_account_password-IsValid :
    (env : Env) (db : Db) (actor : Actor) (id : ℕ) (own : Bool) (d : Decoded PasswordBody)
    → IsValid db.users
    → IsValid (set_account_password env db actor id own d).1.users
unfolding set_account_password
set_account_password-IsValid env db actor id own d v = conclude-Ensures {P = IsValidDb} db (
    Ensures-check (λ _. v) _ _
      λ b.
        Ensures-reject (λ _. v) _ _ _
          λ _.
            Ensures-or_stop (λ _. v) _ _ _
              λ hash _. set_password_tx-Ensures env db actor id own b hash v)

reset_user_password-IsValid :
    (env : Env) (db : Db) (actor : Actor) (id : Bytes) (d : Decoded PasswordBody)
    → IsValid db.users
    → IsValid (reset_user_password env db actor id d).1.users
unfolding reset_user_password reset_found
reset_user_password-IsValid env db actor id d v =
    elim (user_path_id id) as (λ s. IsValid (reset_found env db actor s d).1.users) [
      | stop reply ↦ v
      | go n ↦ set_account_password-IsValid env db actor n false d v
    ]

-- Every write of the account administration, from any actor, with any failure of the database,
-- keeps ids unique, names unique, and at least one administrator who is not disabled.
pub handle-IsValid :
    (env : Env) (db : Db) (actor : Actor) (r : Request)
    → IsValid db.users
    → IsValid (handle env db actor r).1.users
unfolding handle
handle-IsValid env db actor (create b) v = create_user-IsValid env db actor b v
handle-IsValid env db actor (update id b) v = update_user-IsValid env db actor id b v
handle-IsValid env db actor (reset id b) v = reset_user_password-IsValid env db actor id b v
handle-IsValid env db actor (change_own b) v =
    unfold change_own_password in set_account_password-IsValid env db actor actor.id true b v
