-- ===== src/Text/Compare.antt =====
-- Go strings as byte lists: comparison and search.
use Prim.Native.Char.{code}
use imageboard.Base.{
  ℕ, ◌≡◌, refl, Bool, true, false, ◌&&◌, ◌||◌, List, [], ◌∷◌, ◌++◌, String, ◌==◌, if◌then◌else◌,
  length, drop, arith, ◌↔◌,
}

abbrev pub Bytes : Type 0
Bytes = List ℕ

-- The bytes of an ASCII literal.
abbrev pub codes : String → Bytes
codes String.[] = []
codes (String.◌∷◌ c s) = code c ∷ codes s

-- `a == b` on strings.
unfoldable pub bytes_eq : Bytes → Bytes → Bool
bytes_eq [] [] = true
bytes_eq [] (_ ∷ _) = false
bytes_eq (_ ∷ _) [] = false
bytes_eq (a ∷ s) (b ∷ t) = a == b && bytes_eq s t

bytes_eq_sound : (s t : Bytes) → bytes_eq s t ≡ true → s ≡ t
unfolding bytes_eq
bytes_eq_sound [] [] h = refl
bytes_eq_sound [] (_ ∷ _) h = ground arith
bytes_eq_sound (_ ∷ _) [] h = ground arith
bytes_eq_sound (a ∷ s) (b ∷ t) h = ground (arith, bytes_eq_sound s t)

pub bytes_eq_refl : (s : Bytes) → bytes_eq s s ≡ true
unfolding bytes_eq
bytes_eq_refl [] = refl
bytes_eq_refl (a ∷ s) = ground (arith, bytes_eq_refl s)

pub bytes_eq_iff : (s t : Bytes) → (bytes_eq s t ≡ true) ↔ (s ≡ t)
bytes_eq_iff s t = (bytes_eq_sound s t, λ e. rw e (bytes_eq_refl t))

-- Does the text hold a byte that `p` accepts? (`strings.ContainsAny`, by the set's test)
unfoldable pub any_byte : (ℕ → Bool) → Bytes → Bool
any_byte p [] = false
any_byte p (b ∷ s) = p b || any_byte p s

abbrev pub is_nil : Bytes → Bool
is_nil [] = true
is_nil (_ ∷ _) = false

unfoldable pub has_prefix : Bytes → Bytes → Bool
has_prefix s [] = true
has_prefix [] (_ ∷ _) = false
has_prefix (a ∷ s) (b ∷ p) = a == b && has_prefix s p

unfoldable pub trim_prefix : Bytes → Bytes → Bytes
unfolding has_prefix
trim_prefix s p = if has_prefix s p then drop (length p) s else s

pub has_prefix-append : (p s : Bytes) → has_prefix (p ++ s) p ≡ true
unfolding has_prefix
has_prefix-append [] s = refl
has_prefix-append (b ∷ p) s = ground (arith, has_prefix-append p s)

drop-append : (p s : Bytes) → drop (length p) (p ++ s) ≡ s
drop-append [] s = refl
drop-append (b ∷ p) s = drop-append p s

pub trim_prefix-append : (p s : Bytes) → trim_prefix (p ++ s) p ≡ s
unfolding trim_prefix
trim_prefix-append p s = rw (has_prefix-append p s) (drop-append p s)

pub any_byte-append :
    (p : ℕ → Bool) (s t : Bytes) → any_byte p (s ++ t) ≡ (any_byte p s || any_byte p t)
unfolding any_byte
any_byte-append p [] t = refl
any_byte-append p (b ∷ s) t = ground (arith, any_byte-append p s t)

-- Holds of every member of a list.
abbrev pub All {ℓ κ} : {A : Type ℓ} → (A → Type κ) → List A → Type κ
All P [] = Unit
All P (x ∷ xs) = P x × All P xs

abbrev pub all_bool {ℓ} : {A : Type ℓ} → (A → Bool) → List A → Bool
all_bool p [] = true
all_bool p (x ∷ xs) = p x && all_bool p xs

pub All-bool→All {ℓ} :
    {A : Type ℓ} (p : A → Bool) (xs : List A) → all_bool p xs ≡ true → All (λ x. p x ≡ true) xs
All-bool→All p [] h = tt
All-bool→All p (x ∷ xs) h = (ground arith, All-bool→All p xs (ground arith))

pub All→all_bool {ℓ} :
    {A : Type ℓ} (p : A → Bool) (xs : List A) → All (λ x. p x ≡ true) xs → all_bool p xs ≡ true
All→all_bool p [] h = refl
All→all_bool p (x ∷ xs) h = ground (arith, All→all_bool p xs h.1)

pub All-mono {ℓ κ κ'} :
    {A : Type ℓ} (P : A → Type κ) (Q : A → Type κ') (xs : List A)
    → ((x : A) → P x → Q x)
    → All P xs
    → All Q xs
All-mono P Q [] f h = tt
All-mono P Q (x ∷ xs) f h = (f x h.0, All-mono P Q xs f h.1)
