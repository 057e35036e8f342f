-- ===== src/Network/Exec.antt =====
-- Calls that may end in an exception, over a state that stays as it was when they ended.
use mapit.Base.{Bool, true, false, if◌then◌else◌}
use mapit.Outcome.{Outcome, returned, thrown, running}

-- `zmq::error_t`; a `std::runtime_error` or `std::logic_error`; a failed assertion or a null pointer that is
-- followed, which end the process; a mutex that never comes free; and no end within the fuel.
pub data Error : Type 0 where
  zmq_error : Error
  runtime_error : Error
  logic_error : Error
  crash : Error
  deadlock : Error
  unending : Error

pub data Result {ℓ} (A : Type ℓ) : Type ℓ where
  ok : A → Result A
  err : Error → Result A

abbrev pub Exec : Type 0 → Type 0 → Type 0
Exec S A = S → Result A × S

abbrev pub pure : {S A : Type 0} → A → Exec S A
pure a s = (ok a, s)

abbrev pub raise : {S A : Type 0} → Error → Exec S A
raise e s = (err e, s)

abbrev pub and_then : {S A B : Type 0} → (A → Exec S B) → Result A × S → Result B × S
and_then f (ok a, s) = f a s
and_then f (err e, s) = (err e, s)

infixl 5 ◌>>=◌ ◌>>◌
abbrev pub ◌>>=◌ : {S A B : Type 0} → Exec S A → (A → Exec S B) → Exec S B
◌>>=◌ m f s = and_then f (m s)

abbrev pub ◌>>◌ : {S B : Type 0} → Exec S (Unit {0}) → Exec S B → Exec S B
m >> k = m >>= λ _. k

-- A `catch` clause for some of the exceptions.
abbrev pub catching : {S A : Type 0} → (Error → Bool) → Exec S A → Result A × S → Result A × S
catching catches handler (ok a, s) = (ok a, s)
catching catches handler (err e, s) = if catches e then handler s else (err e, s)

abbrev pub try_catch : {S A : Type 0} → Exec S A → (Error → Bool) → Exec S A → Exec S A
try_catch m catches handler s = catching catches handler (m s)

-- `catch(zmq::error_t)`, `catch(std::runtime_error)` and `catch(...)`.
abbrev pub is_zmq : Error → Bool
is_zmq zmq_error = true
is_zmq _ = false

abbrev pub is_runtime : Error → Bool
is_runtime runtime_error = true
is_runtime _ = false

abbrev pub is_exception : Error → Bool
is_exception zmq_error = true
is_exception runtime_error = true
is_exception logic_error = true
is_exception _ = false

abbrev pub assert : {S : Type 0} → Bool → Exec S (Unit {0})
assert true = pure tt
assert false = raise crash

-- A call of the core. What it leaves without a value there is an assertion or a null pointer.
abbrev pub from_outcome : {S A : Type 0} → Outcome A → Exec S A
from_outcome (returned a) = pure a
from_outcome thrown = raise crash
from_outcome running = raise unending
