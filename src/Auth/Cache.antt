-- ===== src/Auth/Cache.antt =====
-- The cache of `authenticate`, go_api/cmd/api/main.go, and the credentials its entries stand for.
use imageboard.Base.{
  ℕ, ◌≡◌, refl, sym, subst, ltb, ◌||◌, ap, ◌∙◌, Bool, true, false, List, [], ◌∷◌, Option, none,
  some, arith, inl, inr, Bool-cases, Option-cases, if◌then◌else◌,
}
use imageboard.Text.{Bytes, bytes_eq, bytes_eq_iff, All, is_nil}
use imageboard.Password.{verify_password}
use imageboard.Accounts.{Account, find_account, id_taken}
use imageboard.Accounts.Invariant.{UniqueIds}
use imageboard.Accounts.Names.{Keeps}
use imageboard.Auth.{
  User, Entry, Cache, Config, message, auth_cache_key, find_entry, purge, delete_entry, find_name,
  user_of, entry_serves, admit, authenticate,
}

-- The entry was made of credentials that its hash admits, for an account that is still there.
pub record IsProof (c : Config) (users : List Account) (key : Bytes) (e : Entry) : Type 0 where
  pub username : Bytes
  pub password : Bytes
  pub signed : key ≡ auth_cache_key c username password
  pub admits : verify_password c.derive e.hash password ≡ true
  pub row : Account
  pub is_row : find_account e.user.id users ≡ some row
  pub has_name : row.name ≡ username

abbrev pub IsSound : Config → List Account → Cache → Type 0
IsSound c users = All (λ (k, e). IsProof c users k e)

-- Different messages have different codes.
abbrev pub IsInjective : (Bytes → Bytes) → Type 0
IsInjective mac = (s t : Bytes) → mac s ≡ mac t → s ≡ t

module _ (c : Config) (users : List Account) where
  find_entry-IsProof :
      (key : Bytes) (cache : Cache) (e : Entry)
      → IsSound c users cache
      → find_entry key cache ≡ some e
      → IsProof c users key e
  unfolding find_entry
  find_entry-IsProof key [] e s f = absurd (ground arith)
  find_entry-IsProof key ((k, e') ∷ rest) e s f = elim (Bool-cases (bytes_eq k key)) [
    | inl same ↦
        subst (λ x. IsProof c users x e) ((bytes_eq_iff k key).0 same)
          (subst (λ y. IsProof c users k y) (ground arith) s.0)
    | inr other ↦ find_entry-IsProof key rest e s.1 (ground arith)
  ]

  purge-IsSound :
      (now : ℕ) (cache : Cache) → IsSound c users cache → IsSound c users (purge now cache)
  unfolding purge
  purge-IsSound now [] s = s
  purge-IsSound now ((k, e) ∷ rest) s = elim (Bool-cases (ltb now e.expires)) [
    | inl kept ↦ rw kept (s.0, purge-IsSound now rest s.1)
    | inr over ↦ rw over (purge-IsSound now rest s.1)
  ]

  delete_entry-IsSound :
      (key : Bytes) (cache : Cache)
      → IsSound c users cache
      → IsSound c users (delete_entry key cache)
  unfolding delete_entry
  delete_entry-IsSound key [] s = s
  delete_entry-IsSound key ((k, e) ∷ rest) s = elim (Bool-cases (bytes_eq k key)) [
    | inl same ↦ rw same (delete_entry-IsSound key rest s.1)
    | inr other ↦ rw other (s.0, delete_entry-IsSound key rest s.1)
  ]

id_taken_found :
    (j : ℕ) (us : List Account) (x : Account) → find_account j us ≡ some x → id_taken j us ≡ true
unfolding find_account id_taken
id_taken_found j [] x f = ground arith
id_taken_found j (a ∷ us) x f = ground (arith, id_taken_found j us x)

find_account-find_name :
    (name : Bytes) (us : List Account) (a : Account)
    → UniqueIds us
    → find_name name us ≡ some a
    → find_account a.id us ≡ some a
unfolding find_name find_account
find_account-find_name name [] a u f = ground arith
find_account-find_name name (x ∷ us) a u f =
    ground (arith, find_account-find_name name us a u.1, id_taken_found a.id us a)

name-find_name :
    (name : Bytes) (us : List Account) (a : Account) → find_name name us ≡ some a → a.name ≡ name
unfolding find_name
name-find_name name [] a f = ground arith
name-find_name name (x ∷ us) a f =
    ground (arith, name-find_name name us a, bytes_eq_iff x.name name)

message_cancel : (u p q : Bytes) → message u p ≡ message u q → p ≡ q
message_cancel [] p q e = cc
message_cancel (b ∷ u) p q e = message_cancel u p q (cc)

-- An entry that serves proves the password that was given.
entry_serves-verify :
    (c : Config) (users : List Account) (now : ℕ) (username password : Bytes) (a : Account)
    (e : Entry)
    → IsInjective c.mac
    → find_account a.id users ≡ some a
    → a.name ≡ username
    → IsProof c users (auth_cache_key c username password) e
    → entry_serves now a (some e) ≡ true
    → verify_password c.derive a.password password ≡ true
unfolding entry_serves auth_cache_key
entry_serves-verify c users now username password a e inj f n p s =
    subst (λ h. verify_password c.derive h password ≡ true) same_hash
      (subst (λ q. verify_password c.derive e.hash q ≡ true) same_password p.admits)
  where
    same_hash : e.hash ≡ a.password
    same_hash = (bytes_eq_iff e.hash a.password).0 (ground arith)

    same_id : e.user.id ≡ a.id
    same_id = ground arith

    same_row : p.row ≡ a
    same_row = cc (subst (λ j. find_account j users ≡ some p.row) same_id p.is_row, f)

    same_name : p.username ≡ username
    same_name = sym p.has_name ∙ ap (λ (x : Account). x.name) same_row ∙ n

    same_password : p.password ≡ password
    same_password = message_cancel username p.password password (
        subst (λ u. message u p.password ≡ message username password) same_name
          (sym (inj _ _ p.signed)))

module _ (c : Config) (users : List Account) (inj : IsInjective c.mac) (unique : UniqueIds users)
    (fails : Bool) (now : ℕ) where
  admit-verify :
      (username password : Bytes) (seen current : Cache) (a : Account)
      → IsSound c users seen
      → find_name username users ≡ some a
      → (admit c now username password
          (find_entry (auth_cache_key c username password) seen)
          a
          current).0
        ≡ (if verify_password c.derive a.password password then some (user_of a) else none)
  unfolding admit
  admit-verify username password seen current a s f =
      elim (Option-cases (find_entry (auth_cache_key c username password) seen)) [
        | inl e ↦ rw e (unfold entry_serves in ground arith)
        | inr (entry, e) ↦ rw e (
            ground (
              arith,
              entry_serves-verify c users now username password a entry inj
                  (find_account-find_name username users a unique f)
                  (name-find_name username users a f)
                  (find_entry-IsProof c users (auth_cache_key c username password) seen entry s e),
            ))
      ]

  -- With codes that do not collide, unique ids and a sound cache, a request is admitted with the
  -- cache exactly as it is with an empty one, and as the same user.
  pub authenticate_transparent :
      (seen current : Cache) (credentials : Option (Bytes × Bytes))
      → IsSound c users seen
      → (authenticate c users fails now seen current credentials).0
        ≡ (authenticate c users fails now [] [] credentials).0
  unfolding authenticate
  authenticate_transparent seen current none s = refl
  authenticate_transparent seen current (some (username, password)) s =
      elim (Option-cases (find_name username users)) [
        | inl e ↦ rw e (ground arith)
        | inr (a, e) ↦ rw e (
            ground (
              arith,
              admit-verify username password seen current a s e,
              admit-verify username password [] [] a tt e,
            ))
      ]

  -- With the same hypotheses, who is admitted has given the name of an account that is not
  -- disabled, with a password that its hash admits, and is told of as that account.
  pub authenticate_sound :
      (seen current : Cache) (username password : Bytes) (u : User)
      → IsSound c users seen
      → (authenticate c users fails now seen current (some (username, password))).0 ≡ some u
      → (a : Account) × (find_name username users ≡ some a)
        × (a.banned ≡ false)
        × (verify_password c.derive a.password password ≡ true)
        × (u ≡ user_of a)
  unfolding authenticate
  authenticate_sound seen current username password u s h =
      elim (Option-cases (find_name username users)) [
        | inl e ↦ absurd (ground arith)
        | inr (a, e) ↦ (
          a,
          e,
          ground (arith, admit-verify username password seen current a s e),
          ground (arith, admit-verify username password seen current a s e),
          ground (arith, admit-verify username password seen current a s e),
        )
      ]

module _ (c : Config) (users : List Account) (unique : UniqueIds users) where
  admit-IsSound :
      (now : ℕ) (username password : Bytes) (seen : Option Entry) (current : Cache) (a : Account)
      → find_name username users ≡ some a
      → IsSound c users current
      → IsSound c users (admit c now username password seen a current).1
  unfolding admit
  admit-IsSound now username password seen current a f s =
      elim (Bool-cases (entry_serves now a seen)) [
        | inl hit ↦ rw hit s
        | inr miss ↦ rw miss (elim (Bool-cases (verify_password c.derive a.password password)) [
          | inr wrong ↦ rw wrong s
          | inl right ↦ rw right (
            record {
              username = username;
              password = password;
              signed = refl;
              admits = right;
              row = a;
              is_row = unfold user_of in find_account-find_name username users a unique f;
              has_name = name-find_name username users a f;
            },
            delete_entry-IsSound c users _ _ (purge-IsSound c users now current s),
          )
        ])
      ]

  -- The cache stays sound: each entry was made of credentials that its hash admits.
  pub authenticate-IsSound :
      (fails : Bool) (now : ℕ) (seen current : Cache) (credentials : Option (Bytes × Bytes))
      → IsSound c users current
      → IsSound c users (authenticate c users fails now seen current credentials).1
  unfolding authenticate
  authenticate-IsSound fails now seen current none s = s
  authenticate-IsSound fails now seen current (some (username, password)) s =
      elim (Bool-cases (is_nil username || is_nil password || fails)) [
        | inl refused ↦ rw refused s
        | inr asked ↦ rw asked (elim (Option-cases (find_name username users)) [
          | inl e ↦ rw e s
          | inr (a, e) ↦ rw e (elim (Bool-cases a.banned) [
            | inl banned ↦ rw banned s
            | inr active ↦ simp active (admit-IsSound now username password _ current a e s)
          ])
        ])
      ]

-- A change of the accounts that keeps their ids and names keeps the cache sound.
pub Keeps-IsSound :
    (c : Config) (us us' : List Account) (cache : Cache)
    → Keeps us us'
    → IsSound c us cache
    → IsSound c us' cache
Keeps-IsSound c us us' [] k s = tt
Keeps-IsSound c us us' ((key, e) ∷ rest) k (p, s) =
    let (y, f, n, _) = k e.user.id p.row p.is_row in
    (
      record {
        username = p.username;
        password = p.password;
        signed = p.signed;
        admits = p.admits;
        row = y;
        is_row = f;
        has_name = n ∙ p.has_name;
      },
      Keeps-IsSound c us us' rest k s,
    )
