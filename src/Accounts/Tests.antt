-- ===== src/Accounts/Tests.antt =====
-- Runs of the account handlers, and the theorems at concrete tables.
use imageboard.Base.{◌≡◌, refl, true, false, [], ◌∷◌, none, some, arith, replicate, ◌⊎◌}
use imageboard.Text.{Bytes, codes, split, has_prefix, trim_prefix, parse_int, hex_decode, bytes_eq}
use imageboard.Password.{Derive, verify_password}
use imageboard.Accounts.{
  Account, Db, Env, Actor, committed, Request, update, handle, body, error, find_account,
  set_status, is_active_admin, is_admin, with_status, user_path_id, begin_account_change,
  update_user, decode_account_json, update_user_tx, ◌>>=◌, reject_if, or_stop, check, when,
  begin_tx, read, exec, write_reply, audit_account, update_audit, updated, commit, other_admins,
  id_taken, name_taken,
}
use imageboard.Accounts.Invariant.{IsValid, handle-IsValid}
use imageboard.Accounts.Authority.{IsAuthorised, handle_guarded}
use imageboard.Accounts.Atomic.{IsError, account_write-handle}
use imageboard.Accounts.Origin.{IsSameOrigin}
use imageboard.Accounts.Guard.{
  Url, Web, Headers, account_write, is_json_request, is_other_site, is_own_origin, scheme_of,
}
use imageboard.Accounts.Names.{Keeps, handle-Keeps}

abbrev constant_derive : Derive
constant_derive password salt cost block parallel len = some (replicate len 7)

abbrev stored : Bytes
stored =
    codes
      "scrypt:32768:8:1$ab$07070707070707070707070707070707070707070707070707070707070707070707070707070707070707070707070707070707070707070707070707070707"

abbrev root : Account
root = record {
  id = 1;
  name = codes "root";
  password = stored;
  privileges = codes "admin";
  banned = false;
}

abbrev guest : Account
guest = record {
  id = 2;
  name = codes "guest";
  password = stored;
  privileges = codes "user";
  banned = false;
}

abbrev tables : Db
tables = record { users = root ∷ guest ∷ []; audit = [] }

abbrev calm : Env
calm = record {
  fails = λ s. false;
  commit_ends = committed;
  derive = constant_derive;
  random = some (replicate 16 1);
  new_id = 3;
}

abbrev root_actor : Actor
root_actor = record { id = 1; password = codes "a long password" }

abbrev demote : Bytes → Request
demote id = update id (body (record { admin = some false; disabled = none }))

abbrev promote : Bytes → Request
promote id = update id (body (record { admin = some true; disabled = none }))

tables-IsValid : IsValid tables.users
unfolding id_taken name_taken bytes_eq is_active_admin is_admin
tables-IsValid = record {
  ids = (refl, (refl, tt));
  names = (refl, (refl, tt));
  has_admin = omega arith;
}

-- The last administrator cannot be demoted.
demote_last :
    handle calm tables root_actor (demote (codes "1"))
    ≡ (error 409 "Cannot disable or demote the last active administrator", tables)
unfolding handle update_user decode_account_json update_user_tx update_audit audit_account
    begin_account_change user_path_id ◌>>=◌ check reject_if or_stop when begin_tx read exec commit
    write_reply find_account verify_password split has_prefix trim_prefix parse_int hex_decode
    bytes_eq is_admin is_active_admin other_admins
demote_last = refl

promote-guest :
    (handle calm tables root_actor (promote (codes "2"))).1.users
    ≡ root ∷ (record guest { privileges = codes "admin" }) ∷ []
unfolding handle update_user decode_account_json update_user_tx update_audit audit_account
    begin_account_change user_path_id ◌>>=◌ check reject_if or_stop when begin_tx read exec commit
    write_reply find_account verify_password split has_prefix trim_prefix parse_int hex_decode
    bytes_eq is_admin is_active_admin other_admins set_status with_status
promote-guest = refl

handle-IsValid_example : IsValid (handle calm tables root_actor (promote (codes "2"))).1.users
handle-IsValid_example = handle-IsValid calm tables root_actor (promote (codes "2")) tables-IsValid

handle_guarded_example :
    ((handle calm tables root_actor (promote (codes "2"))).1 ≡ tables)
    ⊎ IsAuthorised calm tables root_actor true
handle_guarded_example = handle_guarded calm tables root_actor (promote (codes "2"))

handle-Keeps_example :
    Keeps tables.users (handle calm tables root_actor (promote (codes "2"))).1.users
handle-Keeps_example = handle-Keeps calm tables root_actor (promote (codes "2"))

-- A browser's request from the server's own page.
abbrev own_url : Url
own_url = record {
  scheme = codes "https";
  host = codes "pictures.example";
  has_user = false;
  path = [];
  raw_query = [];
  fragment = [];
}

abbrev web : Web
web = record {
  media_type = λ text. some text;
  parse_url = λ text. some own_url;
  equal_fold = bytes_eq;
}

abbrev headers : Headers
headers = record {
  content_type = codes "application/json";
  request_marker = codes "account";
  fetch_site = codes "same-origin";
  origin = codes "https://pictures.example";
  forwarded_proto = codes "https";
  tls = false;
  host = codes "pictures.example";
}

guarded_promotion :
    (account_write web headers (λ t. handle calm t root_actor (promote (codes "2"))) tables).0
    ≡ updated (record guest { privileges = codes "admin" })
unfolding account_write is_json_request is_other_site is_own_origin scheme_of handle update_user
    decode_account_json update_user_tx update_audit audit_account begin_account_change user_path_id
    ◌>>=◌ check reject_if or_stop when begin_tx read exec commit write_reply find_account
    verify_password split has_prefix trim_prefix parse_int hex_decode bytes_eq is_admin
    is_active_admin other_admins set_status with_status
guarded_promotion = refl

foreign_promotion :
    account_write web
      (record headers { host = codes "other.example" })
      (λ t. handle calm t root_actor (promote (codes "2")))
      tables
    ≡ (error 403 "Cross-origin request rejected", tables)
unfolding account_write is_json_request is_other_site is_own_origin scheme_of bytes_eq
foreign_promotion = refl

account_write-handle_example :
    let (reply, db') =
      account_write web headers (λ t. handle calm t root_actor (promote (codes "2"))) tables in
    (db' ≡ tables) ⊎ ((¬ IsError reply) × IsSameOrigin web headers)
account_write-handle_example =
    account_write-handle web headers calm tables root_actor (promote (codes "2")) (λ e. cc)
