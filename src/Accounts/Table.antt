-- ===== src/Accounts/Table.antt =====
-- The tables "user" and audit_event, and the statements on them. `registered`, which nothing
-- tests, is left out.
use imageboard.Base.{
  ℕ, suc, ◌∷◌, [], List, Bool, true, false, ◌&&◌, ◌||◌, not, Option, none, some, String, ◌==◌,
  if◌then◌else◌,
}
use imageboard.Text.{Bytes, codes, bytes_eq}

pub record Account : Type 0 where
  pub id : ℕ
  pub name : Bytes
  pub password : Bytes
  pub privileges : Bytes
  pub banned : Bool

pub record Audit : Type 0 where
  pub actor_id : ℕ
  pub action : String
  pub object_id : ℕ

pub record Db : Type 0 where
  pub users : List Account
  pub audit : List Audit

abbrev pub event : ℕ → String → ℕ → Audit
event actor action object = record { actor_id = actor; action = action; object_id = object }

-- `privileges = 'admin'`
unfoldable pub is_admin : Account → Bool
is_admin a = bytes_eq a.privileges (codes "admin")

unfoldable pub is_active_admin : Account → Bool
is_active_admin a = is_admin a && not a.banned

-- `SELECT … WHERE id = $1`
unfoldable pub find_account : ℕ → List Account → Option Account
find_account id [] = none
find_account id (a ∷ rest) = if a.id == id then some a else find_account id rest

unfoldable pub name_taken : Bytes → List Account → Bool
name_taken name [] = false
name_taken name (a ∷ rest) = bytes_eq a.name name || name_taken name rest

unfoldable pub id_taken : ℕ → List Account → Bool
id_taken id [] = false
id_taken id (a ∷ rest) = (a.id == id) || id_taken id rest

abbrev pub count_if : Bool → ℕ → ℕ
count_if true n = suc n
count_if false n = n

-- `SELECT count(*) … WHERE privileges = 'admin' AND NOT banned AND id <> $1`
unfoldable pub other_admins : ℕ → List Account → ℕ
other_admins id [] = 0
other_admins id (a ∷ rest) = count_if (is_active_admin a && not (a.id == id)) (other_admins id rest)

abbrev pub role_text : Bool → Bytes
role_text admin = if admin then codes "admin" else codes "user"

unfoldable pub with_status : Bool → Bool → Account → Account
with_status admin disabled a = record a { privileges = role_text admin; banned = disabled }

-- `UPDATE "user" SET privileges = $1, banned = $2 WHERE id = $3`
unfoldable pub set_status : ℕ → Bool → Bool → List Account → List Account
set_status id admin disabled [] = []
set_status id admin disabled (a ∷ rest) =
    (if a.id == id then with_status admin disabled a else a) ∷ set_status id admin disabled rest

unfoldable pub with_password : Bytes → Account → Account
with_password hash a = record a { password = hash }

-- `UPDATE "user" SET password = $1 WHERE id = $2`
unfoldable pub set_password : ℕ → Bytes → List Account → List Account
set_password id hash [] = []
set_password id hash (a ∷ rest) =
    (if a.id == id then with_password hash a else a) ∷ set_password id hash rest

unfoldable pub new_account : ℕ → Bytes → Bytes → Bool → Account
new_account id name hash admin = record {
  id = id;
  name = name;
  password = hash;
  privileges = role_text admin;
  banned = false;
}
