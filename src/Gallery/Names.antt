-- ===== src/Gallery/Names.antt =====
-- The names of the tags in the body of `contextUpdate`, go_api/cmd/api/handlers.go.
use imageboard.Base.{
  ℕ, ◌+◌, ◌≤◌, ◌≡◌, refl, ap, ◌∙◌, sym, ◌∷◌, [], ◌++◌, List, Bool, true, false, ◌&&◌, ◌||◌, not,
  none, some, ltb, if◌then◌else◌, arith, Bool-cases, Option-cases, inl, inr,
}
use imageboard.Text.{Bytes, bytes_eq, bytes_eq_iff}
use imageboard.Search.{clean_tag}
use imageboard.Accounts.{committed, is_none}
use imageboard.Gallery.{Database}
use imageboard.Gallery.Context.{go, has_name, add_name, clean_names}

-- How often a name stands in a list.
abbrev pub one_if : Bool → ℕ
one_if b = if b then 1 else 0

unfoldable pub count_name : Bytes → List Bytes → ℕ
count_name name [] = 0
count_name name (n ∷ rest) = one_if (bytes_eq n name) + count_name name rest

-- Is some tag of the body this name, once it is cleaned?
unfoldable pub is_named : (Bytes → Bytes) → Bytes → List Bytes → Bool
is_named lower name [] = false
is_named lower name (tag ∷ tags) = elim (clean_tag lower tag) [
  | none ↦ is_named lower name tags
  | some clean ↦ bytes_eq clean name || is_named lower name tags
]

unfoldable pub all_clean : (Bytes → Bytes) → List Bytes → Bool
all_clean lower [] = true
all_clean lower (tag ∷ tags) = not (is_none (clean_tag lower tag)) && all_clean lower tags

-- A database in which everything succeeds, and an order that leaves out no key and repeats none.
pub record Works (db : Database) : Type 0 where
  pub begins : db.begin_fails ≡ false
  pub finds : db.find_fails ≡ false
  pub deletes : db.delete_fails ≡ false
  pub tags : (name : Bytes) → db.tag_fails name ≡ false
  pub links : (name : Bytes) → db.link_fails name ≡ false
  pub comments : db.comment_fails ≡ false
  pub commits : db.commit_ends ≡ committed
  pub reloads : db.reload_fails ≡ false
  pub permutes :
      (names : List Bytes) (name : Bytes) → count_name name (db.order names) ≡ count_name name names

abbrev pub IsDistinct : List Bytes → Type 0
IsDistinct names = (name : Bytes) → count_name name names ≤ 1

pub has_name-count :
    (name : Bytes) (names : List Bytes) → has_name name names ≡ ltb 0 (count_name name names)
unfolding has_name count_name
has_name-count name [] = refl
has_name-count name (n ∷ names) = ground (arith, has_name-count name names)

has_name-append :
    (name n : Bytes) (names : List Bytes)
    → has_name name (names ++ n ∷ []) ≡ (has_name name names || bytes_eq n name)
unfolding has_name
has_name-append name n [] = ground arith
has_name-append name n (x ∷ names) = ground (arith, has_name-append name n names)

count_name-append :
    (name n : Bytes) (names : List Bytes)
    → count_name name (names ++ n ∷ []) ≡ count_name name names + one_if (bytes_eq n name)
unfolding count_name
count_name-append name n [] = ground arith
count_name-append name n (x ∷ names) = ground (arith, count_name-append name n names)

pub has_name_eq :
    (n name : Bytes) (names : List Bytes)
    → bytes_eq n name ≡ true
    → has_name name names ≡ has_name n names
has_name_eq n name names e = ap (λ m. has_name m names) (sym ((bytes_eq_iff n name).0 e))

add_name-IsDistinct :
    (n : Bytes) (names : List Bytes) → IsDistinct names → IsDistinct (add_name n names)
add_name-IsDistinct n names d name = elim (Bool-cases (has_name n names)) [
  | inl q ↦ rw q (d name)
  | inr q ↦
      rw (q, count_name-append name n names)
        (ground (arith, d name, q, has_name_eq n name names, has_name-count name names))
]

pub has_name-add_name :
    (name n : Bytes) (names : List Bytes)
    → has_name name (add_name n names) ≡ (has_name name names || bytes_eq n name)
has_name-add_name name n names = elim (Bool-cases (has_name n names)) [
  | inl q ↦ rw q (ground (arith, q, has_name_eq n name names))
  | inr q ↦ rw q (has_name-append name n names)
]

-- What the loop over the tags gives, if all can be cleaned.
pub clean_names_all :
    (lower : Bytes → Bytes) (names tags : List Bytes)
    → all_clean lower tags ≡ true
    → IsDistinct names
    → (found : List Bytes) × (clean_names lower names tags ≡ go found)
      × IsDistinct found
      × ((name : Bytes) → has_name name found ≡ (has_name name names || is_named lower name tags))
unfolding clean_names all_clean is_named
clean_names_all lower names [] h d = (names, refl, d, λ name. ground arith)
clean_names_all lower names (tag ∷ tags) h d = elim (Option-cases (clean_tag lower tag)) [
  | inl q ↦ absurd (ground (arith, h, q))
  | inr (clean, q) ↦
      let (found, e, d', names') =
        clean_names_all lower (add_name clean names) tags (ground (arith, h))
          (add_name-IsDistinct clean names d) in
      (
        found,
        rw (q, clean_names) e,
        d',
        λ name. names' name ∙ rw (q, is_named, has_name-add_name name clean names) (ground arith),
      )
]
