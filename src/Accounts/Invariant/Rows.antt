-- ===== src/Accounts/Invariant/Rows.antt =====
-- The invariant, and what each statement on the table does to its parts.
use imageboard.Base.{
  ℕ, ◌≤◌, ◌<◌, ◌≡◌, ◌≢◌, refl, ◌∷◌, [], ◌++◌, List, Bool, true, false, some, arith, ◌&&◌, not,
}
use imageboard.Text.{Bytes, bytes_eq, bytes_eq_iff}
use imageboard.Accounts.Table.{
  Account, find_account, name_taken, id_taken, other_admins, count_if, is_admin, is_active_admin,
  with_status, set_status, with_password, set_password,
}

abbrev pub UniqueIds : List Account → Type 0
UniqueIds [] = Unit
UniqueIds (a ∷ rest) = (id_taken a.id rest ≡ false) × UniqueIds rest

abbrev pub UniqueNames : List Account → Type 0
UniqueNames [] = Unit
UniqueNames (a ∷ rest) = (name_taken a.name rest ≡ false) × UniqueNames rest

abbrev pub active_admins : List Account → ℕ
active_admins [] = 0
active_admins (a ∷ rest) = count_if (is_active_admin a) (active_admins rest)

-- Ids and names are unique, and there is an administrator who can act.
pub record IsValid (users : List Account) : Type 0 where
  pub ids : UniqueIds users
  pub names : UniqueNames users
  pub has_admin : 0 < active_admins users

module _ (id : ℕ) (admin disabled : Bool) where
  id_taken-set_status :
      (j : ℕ) (us : List Account) → id_taken j (set_status id admin disabled us) ≡ id_taken j us
  unfolding id_taken set_status with_status
  id_taken-set_status j [] = refl
  id_taken-set_status j (a ∷ us) = ground (arith, id_taken-set_status j us)

  name_taken-set_status :
      (n : Bytes) (us : List Account)
      → name_taken n (set_status id admin disabled us) ≡ name_taken n us
  unfolding name_taken set_status with_status
  name_taken-set_status n [] = refl
  name_taken-set_status n (a ∷ us) = ground (arith, name_taken-set_status n us)

  pub set_status-UniqueIds :
      (us : List Account) → UniqueIds us → UniqueIds (set_status id admin disabled us)
  unfolding set_status with_status
  set_status-UniqueIds [] h = h
  set_status-UniqueIds (a ∷ us) h =
      ground (arith, id_taken-set_status a.id us, set_status-UniqueIds us h.1)

  pub set_status-UniqueNames :
      (us : List Account) → UniqueNames us → UniqueNames (set_status id admin disabled us)
  unfolding set_status with_status
  set_status-UniqueNames [] h = h
  set_status-UniqueNames (a ∷ us) h =
      ground (arith, name_taken-set_status a.name us, set_status-UniqueNames us h.1)

  -- The administrators with another id stay.
  pub other_admins-le :
      (us : List Account) → other_admins id us ≤ active_admins (set_status id admin disabled us)
  unfolding other_admins set_status
  other_admins-le [] = omega arith
  other_admins-le (a ∷ us) = ground (arith, other_admins-le us)

  -- A row that is made an active administrator counts.
  pub set_status_active :
      (us : List Account) (a : Account)
      → find_account id us ≡ some a
      → is_active_admin (with_status admin disabled a) ≡ true
      → 0 < active_admins (set_status id admin disabled us)
  unfolding find_account set_status
  set_status_active [] a f h = ground arith
  set_status_active (x ∷ us) a f h = ground (arith, set_status_active us a)

pub is_active_admin-with_status :
    (admin disabled : Bool) (a : Account)
    → is_active_admin (with_status admin disabled a) ≡ (admin && not disabled)
unfolding is_active_admin is_admin with_status bytes_eq
is_active_admin-with_status true disabled a = refl
is_active_admin-with_status false disabled a = refl

other_admins_absent :
    (id : ℕ) (us : List Account) → id_taken id us ≡ false → other_admins id us ≡ active_admins us
unfolding id_taken other_admins
other_admins_absent id [] h = refl
other_admins_absent id (a ∷ us) h = ground (arith, other_admins_absent id us)

-- Where the account is not an active administrator, all of them have another id.
pub other_admins_all :
    (id : ℕ) (us : List Account) {a : Account}
    → UniqueIds us
    → find_account id us ≡ some a
    → is_active_admin a ≡ false
    → other_admins id us ≡ active_admins us
unfolding find_account other_admins
other_admins_all id [] u f h = refl
other_admins_all id (x ∷ us) u f h =
    grind (arith, other_admins_all id us u.1, other_admins_absent id us)

module _ (id : ℕ) (hash : Bytes) where
  id_taken-set_password :
      (j : ℕ) (us : List Account) → id_taken j (set_password id hash us) ≡ id_taken j us
  unfolding id_taken set_password with_password
  id_taken-set_password j [] = refl
  id_taken-set_password j (a ∷ us) = ground (arith, id_taken-set_password j us)

  name_taken-set_password :
      (n : Bytes) (us : List Account) → name_taken n (set_password id hash us) ≡ name_taken n us
  unfolding name_taken set_password with_password
  name_taken-set_password n [] = refl
  name_taken-set_password n (a ∷ us) = ground (arith, name_taken-set_password n us)

  active_admins-set_password :
      (us : List Account) → active_admins (set_password id hash us) ≡ active_admins us
  unfolding set_password with_password is_active_admin is_admin
  active_admins-set_password [] = refl
  active_admins-set_password (a ∷ us) = ground (arith, active_admins-set_password us)

  set_password-UniqueIds : (us : List Account) → UniqueIds us → UniqueIds (set_password id hash us)
  unfolding set_password with_password
  set_password-UniqueIds [] h = h
  set_password-UniqueIds (a ∷ us) h =
      ground (arith, id_taken-set_password a.id us, set_password-UniqueIds us h.1)

  set_password-UniqueNames :
      (us : List Account) → UniqueNames us → UniqueNames (set_password id hash us)
  unfolding set_password with_password
  set_password-UniqueNames [] h = h
  set_password-UniqueNames (a ∷ us) h =
      ground (arith, name_taken-set_password a.name us, set_password-UniqueNames us h.1)

  pub set_password-IsValid : (us : List Account) → IsValid us → IsValid (set_password id hash us)
  set_password-IsValid us v = record {
    ids = set_password-UniqueIds us v.ids;
    names = set_password-UniqueNames us v.names;
    has_admin = rw (active_admins-set_password us) v.has_admin;
  }

module _ (row : Account) where
  id_taken-append :
      (j : ℕ) (us : List Account)
      → id_taken j us ≡ false
      → row.id ≢ j
      → id_taken j (us ++ row ∷ []) ≡ false
  unfolding id_taken
  id_taken-append j [] h n = ground arith
  id_taken-append j (a ∷ us) h n = ground (arith, id_taken-append j us)

  name_taken-append :
      (n : Bytes) (us : List Account)
      → name_taken n us ≡ false
      → bytes_eq row.name n ≡ false
      → name_taken n (us ++ row ∷ []) ≡ false
  unfolding name_taken
  name_taken-append n [] h d = ground arith
  name_taken-append n (a ∷ us) h d = ground (arith, name_taken-append n us)

  append-UniqueIds :
      (us : List Account) → UniqueIds us → id_taken row.id us ≡ false → UniqueIds (us ++ row ∷ [])
  unfolding id_taken
  append-UniqueIds [] h t = (refl, tt)
  append-UniqueIds (a ∷ us) h t =
      ground (arith, id_taken-append a.id us h.0, append-UniqueIds us h.1)

  append-UniqueNames :
      (us : List Account)
      → UniqueNames us
      → name_taken row.name us ≡ false
      → UniqueNames (us ++ row ∷ [])
  unfolding name_taken
  append-UniqueNames [] h t = (refl, tt)
  append-UniqueNames (a ∷ us) h t = ground (
    arith,
    name_taken-append a.name us h.0,
    append-UniqueNames us h.1,
    bytes_eq_iff row.name a.name,
    bytes_eq_iff a.name row.name,
  )

  active_admins-append : (us : List Account) → active_admins us ≤ active_admins (us ++ row ∷ [])
  active_admins-append [] = omega arith
  active_admins-append (a ∷ us) = ground (arith, active_admins-append us)

  pub append-IsValid :
      (us : List Account)
      → IsValid us
      → id_taken row.id us ≡ false
      → name_taken row.name us ≡ false
      → IsValid (us ++ row ∷ [])
  append-IsValid us v i n = record {
    ids = append-UniqueIds us v.ids i;
    names = append-UniqueNames us v.names n;
    has_admin = omega (arith, active_admins-append us, v.has_admin);
  }
