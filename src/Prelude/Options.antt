-- ===== src/Prelude/Options.antt =====
-- Chains of steps that may run out of fuel.
use mathlib.Core.Path.{◌≡◌, refl}
use mathlib.Core.Logic.{◌⊎◌, inl, inr}
use mathlib.Core.Option
use mathlib.Core.Option.{Option, none, some}

infixl 5 ◌>>=◌
abbrev pub ◌>>=◌ {ℓ κ} : {A : Type ℓ} {B : Type κ} → Option A → (A → Option B) → Option B
none >>= f = none
some a >>= f = f a

-- the outcome of a step that has not run out of fuel
abbrev pub Returns : {A : Type 0} → Option A → (A → Type 0) → Type 0
Returns none P = ⊥
Returns (some a) P = P a

pub Returns-map :
    {A B : Type 0} (P : A → Type 0) (Q : B → Type 0) (m : Option A) (f : A → B)
    → Returns m P
    → ((a : A) → P a → Q (f a))
    → Returns (Option.map f m) Q
Returns-map P Q none f r k = r
Returns-map P Q (some a) f r k = k a r

pub Returns-some :
    {A : Type 0} (P : A → Type 0) {m : Option A} {a : A} → m ≡ some a → Returns m P → P a
Returns-some P e r = rw e at r

pub Returns->>= :
    {A B : Type 0} (P : A → Type 0) (Q : B → Type 0) (m : Option A) (f : A → Option B)
    → Returns m P
    → ((a : A) → P a → Returns (f a) Q)
    → Returns (m >>= f) Q
Returns->>= P Q none f r k = r
Returns->>= P Q (some a) f r k = k a r

pub Returns-weaken :
    {A : Type 0} (P Q : A → Type 0) (m : Option A)
    → Returns m P
    → ((a : A) → P a → Q a)
    → Returns m Q
Returns-weaken P Q none r k = r
Returns-weaken P Q (some a) r k = k a r

pub Option-cases : {A : Type 0} (m : Option A) → (m ≡ none) ⊎ ((a : A) × (m ≡ some a))
Option-cases none = inl refl
Option-cases (some a) = inr (a, refl)
