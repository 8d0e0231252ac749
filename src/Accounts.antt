-- ===== src/Accounts.antt =====
-- Accounts and their administration, go_api/cmd/api/users.go. A handler runs alone: each takes the
-- advisory lock in `beginAccountChange` and holds it until its transaction ends. It gives the
-- reply and the tables that it leaves behind.
mod Table
mod Transaction
mod Rules
pub mod Invariant
pub mod Authority
mod Guard
mod Origin
pub mod Atomic
pub mod Names
mod Tests
unfoldable pub use Table.*
unfoldable pub use Transaction.*
pub use Rules.*
use imageboard.Base.{
  ℕ, ◌∷◌, ◌++◌, [], List, Bool, true, false, ◌&&◌, ◌||◌, not, Option, none, some, String, leb, ltb,
  ◌==◌, if◌then◌else◌, length,
}
use imageboard.Text.{Bytes, codes, has_prefix, is_nil, parse_int, positive, int32_bound}
use imageboard.Password.{verify_password, hash_password, valid_username, valid_new_password}

-- `userPathID`
unfoldable pub user_path_id : Bytes → Result ℕ
user_path_id text = elim (positive (parse_int int32_bound text)) [
  | none ↦ stop (error 404 "User not found")
  | some id ↦ go id
]

-- `decodeAccountJSON`
unfoldable pub decode_account_json {ℓ} : {A : Type ℓ} → Decoded A → Result A
decode_account_json malformed = stop (error 422 "Invalid account request")
decode_account_json trailing = stop (error 422 "Supply one JSON object")
decode_account_json (body a) = go a

unfoldable pub create_user_tx : Env → Actor → CreateBody → Bytes → Step Reply
create_user_tx env actor b hash = do
  begin_account_change env actor true
  reject_if (env.fails target_row) (error 500 "Database unavailable")
  db ← read
  reject_if (name_taken b.name db.users || id_taken env.new_id db.users)
      (error 409 "Username already exists")
  let row = new_account env.new_id b.name hash b.admin
  exec λ w. record w { users = w.users ++ row ∷ [] }
  audit_account env first_audit actor.id "create_user" row.id
  commit env
  write_reply (created row)

unfoldable pub create_user : Env → Db → Actor → Decoded CreateBody → Reply × Db
unfolding decode_account_json
create_user env db actor decoded = conclude db do
  b ← check (decode_account_json decoded)
  reject_if (not (valid_username b.name) || not (valid_new_password b.password)) (
      error 422
        "Username must be 3–100 characters without colon, control characters, or surrounding whitespace; password must be 14–256 characters without control characters")
  hash ←
      or_stop (hash_password env.derive env.random b.password) (error 500 "Password hashing failed")
  create_user_tx env actor b hash

abbrev pub or_old : Option Bool → Bool → Bool
or_old none old = old
or_old (some new) old = new

-- The audit events of an update: role first, then status.
unfoldable pub update_audit : Env → Actor → Account → Bool → Bool → Step (Unit {0})
update_audit env actor old admin disabled = do
  when (not (bool_eq (is_admin old) admin))
      (audit_account env first_audit actor.id "change_user_role" old.id)
  when (not (bool_eq old.banned disabled)) (
      audit_account env second_audit actor.id (if disabled then "disable_user" else "enable_user")
        old.id)

unfoldable pub update_user_tx : Env → Actor → ℕ → UpdateBody → Step Reply
unfolding update_audit
update_user_tx env actor id b = do
  begin_account_change env actor true
  reject_if (env.fails target_row) (error 500 "Database unavailable")
  db ← read
  old ← or_stop (find_account id db.users) (error 404 "User not found")
  let admin = or_old b.admin (is_admin old)
  let disabled = or_old b.disabled old.banned
  reject_if (old.banned && not disabled && not (has_prefix old.password (codes "scrypt:")))
      (error 409 "Reset this account's password before reactivation")
  let demoted = is_active_admin old && (not admin || disabled)
  reject_if (demoted && env.fails count_admins) (error 500 "Database unavailable")
  reject_if (demoted && (other_admins id db.users == 0))
      (error 409 "Cannot disable or demote the last active administrator")
  reject_if (env.fails write_row) (error 500 "Database unavailable")
  exec λ w. record w { users = set_status id admin disabled w.users }
  update_audit env actor old admin disabled
  commit env
  write_reply (updated (with_status admin disabled old))

unfoldable pub update_user : Env → Db → Actor → Bytes → Decoded UpdateBody → Reply × Db
unfolding user_path_id decode_account_json
update_user env db actor id_text decoded = conclude db do
  id ← check (user_path_id id_text)
  b ← check (decode_account_json decoded)
  reject_if (is_none b.admin && is_none b.disabled) (error 422 "Supply admin or disabled status")
  update_user_tx env actor id b

unfoldable pub set_password_tx : Env → Actor → ℕ → Bool → PasswordBody → Bytes → Step Reply
set_password_tx env actor id own b hash = do
  begin_account_change env actor (not own)
  reject_if (env.fails target_row) (error 500 "Database unavailable")
  db ← read
  old ← or_stop (find_account id db.users) (error 404 "User not found")
  reject_if (own && not (verify_password env.derive old.password b.current_password))
      (error 422 "Current password is incorrect")
  reject_if (env.fails write_row) (error 500 "Database unavailable")
  exec λ w. record w { users = set_password id hash w.users }
  audit_account env first_audit actor.id
      (if own then "change_own_password" else "reset_user_password") id
  commit env
  write_reply no_content

unfoldable pub set_account_password :
    Env → Db → Actor → ℕ → Bool → Decoded PasswordBody → Reply × Db
unfolding decode_account_json
set_account_password env db actor id own decoded = conclude db do
  b ← check (decode_account_json decoded)
  reject_if
      (not (valid_new_password b.password)
        || (own && (is_nil b.current_password || ltb 4096 (length b.current_password)))
        || (not own && not (is_nil b.current_password)))
      (error 422
        "Password must be 14–256 characters without control characters; own changes require current password")
  hash ←
      or_stop (hash_password env.derive env.random b.password) (error 500 "Password hashing failed")
  set_password_tx env actor id own b hash

unfoldable pub reset_found : Env → Db → Actor → Result ℕ → Decoded PasswordBody → Reply × Db
reset_found env db actor (stop reply) decoded = (reply, db)
reset_found env db actor (go id) decoded = set_account_password env db actor id false decoded

unfoldable pub reset_user_password : Env → Db → Actor → Bytes → Decoded PasswordBody → Reply × Db
unfolding user_path_id reset_found
reset_user_password env db actor id_text decoded =
    reset_found env db actor (user_path_id id_text) decoded

unfoldable pub change_own_password : Env → Db → Actor → Decoded PasswordBody → Reply × Db
change_own_password env db actor decoded = set_account_password env db actor actor.id true decoded

-- The writes of the administration, as requests.
pub data Request : Type 0 where
  create : Decoded CreateBody → Request
  update : Bytes → Decoded UpdateBody → Request
  reset : Bytes → Decoded PasswordBody → Request
  change_own : Decoded PasswordBody → Request

unfoldable pub handle : Env → Db → Actor → Request → Reply × Db
unfolding create_user update_user reset_user_password change_own_password
handle env db actor (create b) = create_user env db actor b
handle env db actor (update id b) = update_user env db actor id b
handle env db actor (reset id b) = reset_user_password env db actor id b
handle env db actor (change_own b) = change_own_password env db actor b
