-- ===== src/Result.antt =====
-- The ways in which the code ends. MEMOIR_ASSERT of runtime/include/internal.h ends the program.
use memoir_cs397_atc.Prelude.{Bool, true, false, Option, none, some}

-- The result of code that may stop: by a failed assertion, by an exception, or with undefined
-- behaviour (here: a NULL or dangling pointer).
pub data Result (A : Type 0) : Type 0 where
  ok : A → Result A
  assert_failed thrown undefined out_of_fuel : Result A

infixl 5 ◌>>=◌ ◌>>◌
abbrev pub ◌>>=◌ : {A B : Type 0} → Result A → (A → Result B) → Result B
ok a >>= f = f a
assert_failed >>= f = assert_failed
thrown >>= f = thrown
undefined >>= f = undefined
out_of_fuel >>= f = out_of_fuel

abbrev pub ◌>>◌ : {B : Type 0} → Result (Unit {0}) → Result B → Result B
m >> k = m >>= λ _. k

-- MEMOIR_ASSERT.
abbrev pub assert : Bool → Result (Unit {0})
assert true = ok tt
assert false = assert_failed

-- What is undefined behaviour unless the condition holds.
abbrev pub require : Bool → Result (Unit {0})
require true = ok tt
require false = undefined

-- A pointer that must lead somewhere.
abbrev pub deref : {A : Type 0} → Option A → Result A
deref none = undefined
deref (some a) = ok a
