-- ===== src/Outcome.antt =====
-- What a call ends in.
use mapit.Base.{Bool, true, false, if◌then◌else◌}

-- A value; an exception or a failed assertion; or no end within the fuel.
pub data Outcome {ℓ} (A : Type ℓ) : Type ℓ where
  returned : A → Outcome A
  thrown : Outcome A
  running : Outcome A

infixl 5 ◌>>=◌
abbrev pub ◌>>=◌ {ℓ κ} : {A : Type ℓ} {B : Type κ} → Outcome A → (A → Outcome B) → Outcome B
returned a >>= f = f a
thrown >>= f = thrown
running >>= f = running

-- What holds of the value, if the call returns one.
abbrev pub Ends {ℓ κ} : {A : Type ℓ} → (A → Type κ) → Outcome A → Type κ
Ends P (returned a) = P a
Ends P thrown = Unit
Ends P running = Unit

module _ {ℓ κ ι} {A : Type ℓ} {B : Type κ} where
  pub Ends-bind :
      (Q : A → Type ι) (P : B → Type ι) (o : Outcome A) (f : A → Outcome B)
      → Ends Q o
      → ((a : A) → Q a → Ends P (f a))
      → Ends P (o >>= f)
  Ends-bind Q P (returned a) f h k = k a h
  Ends-bind Q P thrown f h k = tt
  Ends-bind Q P running f h k = tt

pub Ends-map {ℓ κ ι} :
    {A : Type ℓ} (P : A → Type κ) (Q : A → Type ι) (o : Outcome A)
    → ((a : A) → P a → Q a)
    → Ends P o
    → Ends Q o
Ends-map P Q (returned a) f h = f a h
Ends-map P Q thrown f h = tt
Ends-map P Q running f h = tt

-- A property of both branches.
pub if_both {ℓ κ} :
    {A : Type ℓ} (P : A → Type κ) (b : Bool) (x y : A) → P x → P y → P (if b then x else y)
if_both P true x y h k = h
if_both P false x y h k = k

-- The call returns a value, of which something holds.
abbrev pub Returns {ℓ} : {A : Type ℓ} → (A → Type 0) → Outcome A → Type 0
Returns P (returned a) = P a
Returns P thrown = ⊥
Returns P running = ⊥

pub Returns-map {ℓ} :
    {A : Type ℓ} (P Q : A → Type 0) (o : Outcome A)
    → ((a : A) → P a → Q a)
    → Returns P o
    → Returns Q o
Returns-map P Q (returned a) f h = f a h
Returns-map P Q thrown f h = absurd h
Returns-map P Q running f h = absurd h
