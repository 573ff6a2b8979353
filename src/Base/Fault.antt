-- ===== src/Base/Fault.antt =====
-- Code that can fault: `none` is a NULL or wild pointer followed, an access out of range or a
-- division by zero.
use mathlib.Core.Option.{Option, none, some}
use mathlib.Core.Path.{◌≡◌, refl, subst}

infixl 5 ◌>>=◌
abbrev pub ◌>>=◌ {ℓ κ} : {A : Type ℓ} {B : Type κ} → Option A → (A → Option B) → Option B
none >>= f = none
some a >>= f = f a

-- The code does not fault, and its result has the property.
abbrev pub Returns {ℓ} : {A : Type ℓ} → Option A → (A → Type 0) → Type 0
Returns none P = ⊥
Returns (some a) P = P a

pub Returns-some {ℓ} :
    {A : Type ℓ} (P : A → Type 0) (o : Option A) → Returns o P → (a : A) × (o ≡ some a) × P a
Returns-some P none h = absurd h
Returns-some P (some a) h = (a, refl, h)

pub Returns-map {ℓ} :
    {A : Type ℓ} {P Q : A → Type 0} (o : Option A)
    → ((a : A) → P a → Q a)
    → Returns o P
    → Returns o Q
Returns-map none f h = absurd h
Returns-map (some a) f h = f a h

-- What returns is what was promised.
pub Returns-of {ℓ} :
    {A : Type ℓ} (P : A → Type 0) {o : Option A} {a : A} → Returns o P → o ≡ some a → P a
Returns-of P h e = subst (λ x. Returns x P) e h
