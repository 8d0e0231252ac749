-- ===== src/Auth/Session.antt =====
-- Logins and account writes in any order, over one account table and one cache.
use imageboard.Base.{ℕ, ◌≡◌, Bool, List, [], ◌∷◌, Option}
use imageboard.Text.{Bytes}
use imageboard.Accounts.{Db, Env, Actor, Request, handle}
use imageboard.Accounts.Invariant.{IsValid, handle-IsValid}
use imageboard.Accounts.Names.{handle-Keeps}
use imageboard.Auth.{Cache, Config, authenticate}
use imageboard.Auth.Cache.{
  IsSound, IsInjective, authenticate-IsSound, authenticate_transparent, Keeps-IsSound,
}

pub record Server : Type 0 where
  pub db : Db
  pub cache : Cache

-- `login`: does the query fail, the time, the credentials.
pub data Event : Type 0 where
  write : Env → Actor → Request → Event
  login : Bool → ℕ → Option (Bytes × Bytes) → Event

pub step : Config → Server → Event → Server
step c s (write env actor r) = record s { db = (handle env s.db actor r).1 }
step c s (login fails now credentials) = record s {
  cache = (authenticate c s.db.users fails now s.cache s.cache credentials).1;
}

pub run : Config → Server → List Event → Server
run c s [] = s
run c s (e ∷ es) = run c (step c s e) es

pub record IsConsistent (c : Config) (s : Server) : Type 0 where
  pub accounts : IsValid s.db.users
  pub proofs : IsSound c s.db.users s.cache

step-IsConsistent :
    (c : Config) (s : Server) (e : Event) → IsConsistent c s → IsConsistent c (step c s e)
unfolding step
step-IsConsistent c s (write env actor r) h = record {
  accounts = handle-IsValid env s.db actor r h.accounts;
  proofs = Keeps-IsSound c _ _ s.cache (handle-Keeps env s.db actor r) h.proofs;
}
step-IsConsistent c s (login fails now credentials) h = record {
  accounts = h.accounts;
  proofs =
      authenticate-IsSound c s.db.users h.accounts.ids fails now s.cache s.cache credentials
        h.proofs;
}

-- From a consistent server, any logins and account writes in any order lead to one: there is an
-- active administrator, ids and names are unique, and each entry of the cache was made of
-- credentials that its hash admits.
pub run-IsConsistent :
    (c : Config) (s : Server) (es : List Event) → IsConsistent c s → IsConsistent c (run c s es)
unfolding run
run-IsConsistent c s [] h = h
run-IsConsistent c s (e ∷ es) h = run-IsConsistent c (step c s e) es (step-IsConsistent c s e h)

-- After any logins and writes, if codes do not collide, the next login is decided as it would be
-- by a server with an empty cache: a proof in the cache never outlives the password, the account
-- or its status.
pub run-authenticate :
    (c : Config) (s : Server) (es : List Event) (fails : Bool) (now : ℕ)
    (credentials : Option (Bytes × Bytes))
    → IsInjective c.mac
    → IsConsistent c s
    → let s' = run c s es in
      (authenticate c s'.db.users fails now s'.cache s'.cache credentials).0
      ≡ (authenticate c s'.db.users fails now [] [] credentials).0
run-authenticate c s es fails now credentials inj h =
    let h' = run-IsConsistent c s es h in
    authenticate_transparent c _ inj h'.accounts.ids fails now _ _ credentials h'.proofs
