-- ===== src/Base/Outcome.antt =====
-- The outcome of C code that may stop the program: a value, an `abort` (a failed assertion or an
-- explicit one), or a loop of the model that ran out of fuel.
use mathlib.Core.Path.{◌≡◌, refl, ap}
use mathlib.Core.Bool.{Bool, true, false}

pub data Run {ℓ} (A : Type ℓ) : Type ℓ where
  aborted out_of_fuel : Run A
  ok : (value : A) → Run A

infixl 5 ◌>>=◌ ◌>>◌
abbrev pub ◌>>=◌ {κ ℓ} : {B : Type κ} {A : Type ℓ} (m : Run A) (rest : A → Run B) → Run B
aborted >>= rest = aborted
out_of_fuel >>= rest = out_of_fuel
ok value >>= rest = rest value

abbrev pub ◌>>◌ {ℓ} : {B : Type ℓ} → Run (Unit {0}) → Run B → Run B
m >> k = m >>= λ _. k

-- `assert(b)`, with assertions compiled in.
abbrev pub assert : Bool → Run (Unit {0})
assert true = ok tt
assert false = aborted

-- The code neither aborts nor runs out of fuel, and its result is as `Post` says.
abbrev pub Returns {κ ℓ} : {B : Type ℓ} (m : Run B) (Post : B → Type κ) → Type (κ ⊔ ℓ)
Returns {B} m Post = (value : B) × (m ≡ ok value) × Post value

-- What steps in sequence give, from what the first steps give.
pub bind_bind {ℓ} :
    {A B C : Type ℓ} (m : Run A) (f : A → Run B) (g : B → Run C) (b : B)
    → (m >>= f) ≡ ok b
    → (m >>= λ a. f a >>= g) ≡ g b
bind_bind aborted f g b e = cc
bind_bind out_of_fuel f g b e = cc
bind_bind (ok a) f g b e = rw e refl

pub bind_chain {ℓ} :
    {A B C D : Type ℓ} (m : Run A) (f : A → Run B) (g : B → Run C) (k : C → Run D) (s : C)
    → (m >>= λ a. f a >>= g) ≡ ok s
    → (m >>= λ a. f a >>= λ b. g b >>= k) ≡ k s
bind_chain aborted f g k s e = cc
bind_chain out_of_fuel f g k s e = cc
bind_chain (ok a) f g k s e = bind_bind (f a) g k s e

pub bind_after {ℓ} :
    {A B C : Type ℓ} (m : Run A) (f : A → B) (g : B → C) (x : B)
    → (m >>= λ t. ok (f t)) ≡ ok x
    → (m >>= λ t. ok (g (f t))) ≡ ok (g x)
bind_after aborted f g x e = cc
bind_after out_of_fuel f g x e = cc
bind_after (ok t) f g x e = let same : f t ≡ x = cc in ap (λ y. ok (g y)) same
