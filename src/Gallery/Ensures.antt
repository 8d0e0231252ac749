-- ===== src/Gallery/Ensures.antt =====
-- What holds where a transaction of `contextUpdate` goes on to its end, go_api/cmd/api/handlers.go.
use imageboard.Base.{ℕ, ◌≡◌, refl, Bool, true, false}
use imageboard.Gallery.Context.{Try, stop, go, ◌>>=◌, ◌>>◌, stop_if}

pub data Ensures {ℓ} {A : Type ℓ} (P : A → Type 0) : Try A → Type ℓ where
  stopped : (status : ℕ) → Ensures P (stop status)
  gone : {a : A} → P a → Ensures P (go a)

pub Ensures-bind {ℓ κ} :
    {A : Type ℓ} {B : Type κ} {Q : A → Type 0} {P : B → Type 0} {m : Try A} (f : A → Try B)
    → Ensures Q m
    → ((a : A) → Q a → Ensures P (f a))
    → Ensures P (m >>= f)
unfolding ◌>>=◌
Ensures-bind f (stopped status) h = stopped status
Ensures-bind f (gone {a} q) h = h a q

pub Ensures-stop_if {κ} :
    {B : Type κ} {P : B → Type 0} (b : Bool) (status : ℕ) (k : Try B)
    → (b ≡ false → Ensures P k)
    → Ensures P (stop_if b status >> k)
unfolding ◌>>=◌ stop_if
Ensures-stop_if true status k h = stopped status
Ensures-stop_if false status k h = h refl
