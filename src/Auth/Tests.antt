-- ===== src/Auth/Tests.antt =====
-- Runs of the authentication, and its theorems at concrete servers.
use imageboard.Base.{◌≡◌, refl, true, false, List, [], ◌∷◌, ◌++◌, none, some, replicate, arith}
use imageboard.Text.{Bytes, codes, split, has_prefix, trim_prefix, parse_int, hex_decode, bytes_eq}
use imageboard.Password.{Derive, verify_password}
use imageboard.Accounts.{
  Account, Env, committed, update, body, is_admin, is_active_admin, id_taken, name_taken,
}
use imageboard.Auth.{
  Cache, Config, authenticate, find_name, user_of, auth_cache_key, admit, entry_serves, find_entry,
  purge, delete_entry,
}
use imageboard.Auth.Cache.{IsSound, authenticate_sound, authenticate-IsSound}
use imageboard.Auth.Session.{
  Server, Event, write, login, run, IsConsistent, run-IsConsistent, run-authenticate,
}

abbrev constant_derive : Derive
constant_derive password salt cost block parallel len = some (replicate len 7)

abbrev plain : Config
plain = record { mac = λ s. s; derive = constant_derive; ttl = 20 }

abbrev stored : Bytes
stored =
    codes
      "scrypt:32768:8:1$ab$07070707070707070707070707070707070707070707070707070707070707070707070707070707070707070707070707070707070707070707070707070707"

abbrev root : Account
root = record {
  id = 1;
  name = codes "root";
  password = stored;
  privileges = codes "admin";
  banned = false;
}

abbrev credentials : Bytes × Bytes
credentials = (codes "root", codes "pw")

abbrev fresh : Server
fresh = record { db = record { users = root ∷ []; audit = [] }; cache = [] }

fresh-IsConsistent : IsConsistent plain fresh
unfolding id_taken name_taken bytes_eq is_active_admin is_admin
fresh-IsConsistent = record {
  accounts = record { ids = (refl, tt); names = (refl, tt); has_admin = omega arith };
  proofs = tt;
}

abbrev logged_in : Cache
logged_in =
    (
      codes "root" ++ 0 ∷ codes "pw",
      record {
        user = record { id = 1; name = codes "root"; admin = true };
        hash = stored;
        expires = 30;
      },
    )
    ∷ []

-- A first login leaves its proof in the cache.
first_login :
    authenticate plain (root ∷ []) false 10 [] [] (some credentials)
    ≡ (some (record { id = 1; name = codes "root"; admin = true }), logged_in)
unfolding authenticate find_name admit entry_serves auth_cache_key find_entry purge delete_entry
    user_of is_admin verify_password split has_prefix trim_prefix parse_int hex_decode bytes_eq
first_login = refl

abbrev calm : Env
calm = record {
  fails = λ s. false;
  commit_ends = committed;
  derive = constant_derive;
  random = some (replicate 16 1);
  new_id = 3;
}

abbrev events : List Event
events =
    login false 10 (some credentials)
    ∷ write calm (record { id = 1; password = codes "pw" })
        (update (codes "1") (body (record { admin = none; disabled = some true })))
    ∷ []

run-IsConsistent_example : IsConsistent plain (run plain fresh events)
run-IsConsistent_example = run-IsConsistent plain fresh events fresh-IsConsistent

run-authenticate_example :
    let s' = run plain fresh events in
    (authenticate plain s'.db.users false 12 s'.cache s'.cache (some credentials)).0
    ≡ (authenticate plain s'.db.users false 12 [] [] (some credentials)).0
run-authenticate_example =
    run-authenticate plain fresh events false 12 (some credentials) (λ s t e. e) fresh-IsConsistent

logged_in-IsSound : IsSound plain (root ∷ []) logged_in
unfolding authenticate find_name admit entry_serves auth_cache_key find_entry purge delete_entry
    user_of is_admin verify_password split has_prefix trim_prefix parse_int hex_decode bytes_eq
logged_in-IsSound =
    authenticate-IsSound plain (root ∷ []) fresh-IsConsistent.accounts.ids false 10 [] []
      (some credentials) tt

second_login :
    (authenticate plain (root ∷ []) false 12 logged_in logged_in (some credentials)).0
    ≡ some (record { id = 1; name = codes "root"; admin = true })
unfolding authenticate find_name admit entry_serves auth_cache_key find_entry purge delete_entry
    user_of is_admin verify_password split has_prefix trim_prefix parse_int hex_decode bytes_eq
second_login = refl

authenticate_sound_example :
    (a : Account) × (find_name (codes "root") (root ∷ []) ≡ some a)
    × (a.banned ≡ false)
    × (verify_password constant_derive a.password (codes "pw") ≡ true)
    × (record { id = 1; name = codes "root"; admin = true } ≡ user_of a)
authenticate_sound_example =
    authenticate_sound plain (root ∷ []) (λ s t e. e) fresh-IsConsistent.accounts.ids false 12
      logged_in logged_in (codes "root") (codes "pw") _ logged_in-IsSound second_login
