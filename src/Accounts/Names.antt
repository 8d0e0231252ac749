-- ===== src/Accounts/Names.antt =====
-- Ids and names of accounts before and after the handlers of go_api/cmd/api/users.go.
use imageboard.Base.{
  ℕ, ◌≡◌, refl, Bool, true, false, ◌==◌, List, [], ◌∷◌, ◌++◌, some, arith, if◌then◌else◌,
}
use imageboard.Text.{Bytes}
use imageboard.Accounts.{
  Account, Db, Env, Actor, stop, go, Ended, Reply, Decoded, Request, create, update, reset,
  change_own, find_account, handle, create_user, update_user, set_account_password,
  reset_user_password, reset_found, change_own_password, create_user_tx, update_user_tx,
  set_password_tx, user_path_id, conclude-Ensures, Ensures-commit, Ensures-check, Ensures-begin,
  Ensures-read, Ensures-exec, Ensures-audit, Ensures-when_audit, Ensures-assoc, update_audit,
  Result, Ensures-reject, Ensures-or_stop, CreateBody, UpdateBody, PasswordBody, set_status,
  set_password, with_status, with_password,
}

-- Each account of the first table is in the second, under its id and with its name.
abbrev pub Keeps : List Account → List Account → Type 0
Keeps us us' =
    (j : ℕ) (x : Account)
    → find_account j us ≡ some x
    → (y : Account) × (find_account j us' ≡ some y) × (y.name ≡ x.name) × (y.id ≡ x.id)

Keeps-refl : (us : List Account) → Keeps us us
Keeps-refl us j x f = (x, f, refl, refl)

module _ (id : ℕ) (admin disabled : Bool) where
  abbrev restatus : Account → Account
  restatus a = if a.id == id then with_status admin disabled a else a

  find_account-set_status :
      (j : ℕ) (us : List Account) (x : Account)
      → find_account j us ≡ some x
      → find_account j (set_status id admin disabled us) ≡ some (restatus x)
  unfolding find_account set_status with_status
  find_account-set_status j [] x f = ground arith
  find_account-set_status j (a ∷ us) x f = ground (arith, find_account-set_status j us x)

  restatus_same : (x : Account) → ((restatus x).name ≡ x.name) × ((restatus x).id ≡ x.id)
  unfolding with_status
  restatus_same x = ground arith

  set_status-Keeps : (us : List Account) → Keeps us (set_status id admin disabled us)
  set_status-Keeps us j x f =
      (restatus x, find_account-set_status j us x f, (restatus_same x).0, (restatus_same x).1)

module _ (id : ℕ) (hash : Bytes) where
  abbrev rehash : Account → Account
  rehash a = if a.id == id then with_password hash a else a

  find_account-set_password :
      (j : ℕ) (us : List Account) (x : Account)
      → find_account j us ≡ some x
      → find_account j (set_password id hash us) ≡ some (rehash x)
  unfolding find_account set_password with_password
  find_account-set_password j [] x f = ground arith
  find_account-set_password j (a ∷ us) x f = ground (arith, find_account-set_password j us x)

  rehash_same : (x : Account) → ((rehash x).name ≡ x.name) × ((rehash x).id ≡ x.id)
  unfolding with_password
  rehash_same x = ground arith

  set_password-Keeps : (us : List Account) → Keeps us (set_password id hash us)
  set_password-Keeps us j x f =
      (rehash x, find_account-set_password j us x f, (rehash_same x).0, (rehash_same x).1)

find_account-append :
    (row : Account) (j : ℕ) (us : List Account) (x : Account)
    → find_account j us ≡ some x
    → find_account j (us ++ row ∷ []) ≡ some x
unfolding find_account
find_account-append row j [] x f = ground arith
find_account-append row j (a ∷ us) x f = ground (arith, find_account-append row j us x)

append-Keeps : (row : Account) (us : List Account) → Keeps us (us ++ row ∷ [])
append-Keeps row us j x f = (x, find_account-append row j us x f, refl, refl)

abbrev KeepsDb : Db → Ended → Type 0
KeepsDb db e = Keeps db.users e.1.users

module _ (env : Env) (db : Db) (actor : Actor) where
  same : (reply : Reply) → KeepsDb db (reply, db)
  same _ = Keeps-refl db.users

  create_user-Keeps : (d : Decoded CreateBody) → KeepsDb db (create_user env db actor d)
  unfolding create_user create_user_tx
  create_user-Keeps d = conclude-Ensures {P = KeepsDb db} db (
      Ensures-check same _ _ λ b. Ensures-reject same _ _ _ λ _.
        Ensures-or_stop same _ _ _ λ hash _. Ensures-begin same _ _ _ _ λ _ _ _ _.
          Ensures-reject same _ _ _ λ _. Ensures-read _ (
            Ensures-reject same _ _ _ λ _. Ensures-exec _ _ (
              Ensures-audit same _ _ _ _ _ _ λ _.
                Ensures-commit same _ _ (λ _. append-Keeps _ db.users) (append-Keeps _ db.users))))

  update_user-Keeps :
      (id : Bytes) (d : Decoded UpdateBody) → KeepsDb db (update_user env db actor id d)
  unfolding update_user update_user_tx update_audit
  update_user-Keeps id d = conclude-Ensures {P = KeepsDb db} db (
      Ensures-check same _ _ λ n. Ensures-check same _ _ λ b. Ensures-reject same _ _ _ λ _.
        Ensures-begin same _ _ _ _ λ _ _ _ _. Ensures-reject same _ _ _ λ _. Ensures-read _ (
          Ensures-or_stop same _ _ _ λ old _. Ensures-reject same _ _ _ λ _.
            Ensures-reject same _ _ _ λ _. Ensures-reject same _ _ _ λ _.
              Ensures-reject same _ _ _ λ _. Ensures-exec _ _ (
                Ensures-assoc _ _ _ (
                  Ensures-when_audit same _ _ _ _ _ _ _ λ _.
                    Ensures-when_audit same _ _ _ _ _ _ _ λ _.
                      Ensures-commit same _ _ (λ _. set_status-Keeps n _ _ db.users)
                        (set_status-Keeps n _ _ db.users)))))

  set_account_password-Keeps :
      (id : ℕ) (own : Bool) (d : Decoded PasswordBody)
      → KeepsDb db (set_account_password env db actor id own d)
  unfolding set_account_password set_password_tx
  set_account_password-Keeps id own d = conclude-Ensures {P = KeepsDb db} db (
      Ensures-check same _ _ λ b. Ensures-reject same _ _ _ λ _.
        Ensures-or_stop same _ _ _ λ hash _. Ensures-begin same _ _ _ _ λ _ _ _ _.
          Ensures-reject same _ _ _ λ _. Ensures-read _ (
            Ensures-or_stop same _ _ _ λ old _. Ensures-reject same _ _ _ λ _.
              Ensures-reject same _ _ _ λ _. Ensures-exec _ _ (
                Ensures-audit same _ _ _ _ _ _ λ _.
                  Ensures-commit same _ _ (λ _. set_password-Keeps id hash db.users)
                    (set_password-Keeps id hash db.users))))

  reset_found-Keeps :
      (s : Result ℕ) (d : Decoded PasswordBody) → KeepsDb db (reset_found env db actor s d)
  unfolding reset_found
  reset_found-Keeps (stop reply) d = same reply
  reset_found-Keeps (go n) d = set_account_password-Keeps n false d

-- Every account that is there before a write is there after it, with the same id and name.
pub handle-Keeps :
    (env : Env) (db : Db) (actor : Actor) (r : Request)
    → Keeps db.users (handle env db actor r).1.users
unfolding handle
handle-Keeps env db actor (create b) = create_user-Keeps env db actor b
handle-Keeps env db actor (update id b) = update_user-Keeps env db actor id b
handle-Keeps env db actor (reset id b) =
    unfold reset_user_password in reset_found-Keeps env db actor (user_path_id id) b
handle-Keeps env db actor (change_own b) =
    unfold change_own_password in set_account_password-Keeps env db actor actor.id true b
