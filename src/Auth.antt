-- ===== src/Auth.antt =====
-- Authentication, go_api/cmd/api/main.go: `withAuth`, `withAdmin`, `authenticate` and its cache.
pub mod Cache
pub mod Session
mod Tests
use imageboard.Base.{
  ℕ, ◌+◌, ◌∷◌, [], ◌++◌, List, Bool, true, false, ◌&&◌, ◌||◌, not, Option, none, some, leb, ltb,
  ◌==◌, if◌then◌else◌, String,
}
use imageboard.Text.{Bytes, bytes_eq, is_nil}
use imageboard.Password.{Derive, verify_password}
use imageboard.Accounts.{Account, is_admin}

-- `user`: what a handler is told of the account.
pub record User : Type 0 where
  pub id : ℕ
  pub name : Bytes
  pub admin : Bool

-- `cacheEntry`
pub record Entry : Type 0 where
  pub user : User
  pub hash : Bytes
  pub expires : ℕ

abbrev pub Cache : Type 0
Cache = List (Bytes × Entry)

-- HMAC-SHA256 under the server's key, in hex; scrypt; the time that a proof is kept.
pub record Config : Type 0 where
  pub mac : Bytes → Bytes
  pub derive : Derive
  pub ttl : ℕ

-- What is signed for a pair of credentials.
abbrev pub message : Bytes → Bytes → Bytes
message username password = username ++ 0 ∷ password

unfoldable pub auth_cache_key : Config → Bytes → Bytes → Bytes
auth_cache_key c username password = c.mac (message username password)

unfoldable pub find_entry : Bytes → Cache → Option Entry
find_entry key [] = none
find_entry key ((k, e) ∷ rest) = if bytes_eq k key then some e else find_entry key rest

-- Entries whose time is over leave the cache.
unfoldable pub purge : ℕ → Cache → Cache
purge now [] = []
purge now ((k, e) ∷ rest) =
    let kept = purge now rest in if ltb now e.expires then (k, e) ∷ kept else kept

unfoldable pub delete_entry : Bytes → Cache → Cache
delete_entry key [] = []
delete_entry key ((k, e) ∷ rest) =
    let kept = delete_entry key rest in if bytes_eq k key then kept else (k, e) ∷ kept

unfoldable pub find_name : Bytes → List Account → Option Account
find_name name [] = none
find_name name (a ∷ rest) = if bytes_eq a.name name then some a else find_name name rest

unfoldable pub user_of : Account → User
user_of a = record { id = a.id; name = a.name; admin = is_admin a }

-- The entry found proves the credentials, for the account as it is now.
unfoldable pub entry_serves : ℕ → Account → Option Entry → Bool
entry_serves now a none = false
entry_serves now a (some e) = ltb now e.expires && bytes_eq e.hash a.password && (e.user.id == a.id)

-- The end of `authenticate`, once the account is read: `seen` is the entry that was found before
-- that, and `current` the cache now, which other requests may have changed in between.
unfoldable pub admit :
    Config → ℕ → Bytes → Bytes → Option Entry → Account → Cache → Option User × Cache
unfolding entry_serves
admit c now username password seen a current =
    if entry_serves now a seen
    then (some (user_of a), current)
    else if not (verify_password c.derive a.password password)
    then (none, current)
    else (
      some (user_of a),
      (
        auth_cache_key c username password,
        record { user = user_of a; hash = a.password; expires = now + c.ttl },
      )
          ∷ delete_entry (auth_cache_key c username password) (purge now current),
    )

abbrev pub admit_row :
    Config → ℕ → Bytes → Bytes → Option Entry → Option Account → Cache → Option User × Cache
admit_row c now username password seen none current = (none, current)
admit_row c now username password seen (some a) current =
    if a.banned then (none, current) else admit c now username password seen a current

-- `authenticate`: `seen` is the cache at its first lock, `current` at its second; `fails` says that
-- the query of the account failed.
unfoldable pub authenticate :
    Config → List Account → Bool → ℕ → Cache → Cache → Option (Bytes × Bytes) → Option User × Cache
authenticate c users fails now seen current none = (none, current)
authenticate c users fails now seen current (some (username, password)) =
    if is_nil username || is_nil password || fails
    then (none, current)
    else admit_row c now username password (find_entry (auth_cache_key c username password) seen)
        (find_name username users) current

-- What the wrappers answer in place of the handler, if anything.
unfoldable pub with_auth {ℓ} : {A : Type ℓ} → Option User → (User → A) → (ℕ → A) → A
with_auth none handler refuse = refuse 401
with_auth (some u) handler refuse = handler u

unfoldable pub with_admin {ℓ} : {A : Type ℓ} → Option User → (User → A) → (ℕ → A) → A
unfolding with_auth
with_admin found handler refuse =
    with_auth found (λ u. if u.admin then handler u else refuse 403) refuse
