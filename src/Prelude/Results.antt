-- ===== src/Prelude/Results.antt =====
-- Results of the methods: `myassert` (include/Error.H) stops the simulator where its condition is
-- false, and a read through an iterator that points at nothing is a fault too. `endless` stands for a
-- loop that is cut off after the rounds that its fuel allows, `division` for a division by zero,
-- `out_of_range` for an index that a container refuses, and `stopped` for `error`, which ends the run.
use mathlib.Core.Path.{◌≡◌, refl}
use mathlib.Core.Bool.{Bool, true, false}
use mathlib.Core.Option.{Option, none, some}

pub data Fault : Type 0 where
  assertion dangling endless division out_of_range stopped : Fault

-- How a method ends: stopped by a fault, or with what it returns.
pub data Result {ℓ} (A : Type ℓ) : Type ℓ where
  fault : Fault → Result A
  ok : A → Result A

-- The value of an option, or the fault that its absence is.
abbrev pub or_fault {ℓ} : {A : Type ℓ} → Fault → Option A → Result A
or_fault why (some a) = ok a
or_fault why none = fault why

-- A dereference: of a pointer or iterator that may point at nothing.
abbrev pub deref {ℓ} : {A : Type ℓ} → Option A → Result A
deref = or_fault dangling

-- The result of a search that the source asserts to have succeeded.
abbrev pub asserted {ℓ} : {A : Type ℓ} → Option A → Result A
asserted = or_fault assertion

-- `myassert(b)`
abbrev pub assert : Bool → Result (Unit {0})
assert false = fault assertion
assert true = ok tt

-- The statements after a call run where the call returns; a fault ends the whole run.
infixl 5 ◌>>=◌
abbrev pub ◌>>=◌ {ℓ ℓ'} : {A : Type ℓ} → {B : Type ℓ'} → Result A → (A → Result B) → Result B
fault why >>= rest = fault why
ok value >>= rest = rest value

-- The same for a call that returns nothing.
infixl 5 ◌>>◌
abbrev pub ◌>>◌ {ℓ} : {A : Type ℓ} → Result (Unit {0}) → Result A → Result A
fault why >> rest = fault why
ok done >> rest = rest

-- An assertion that holds lets the rest run.
pub assert_pass {ℓ} :
    {A : Type ℓ} {b : Bool} (rest : Result A) → b ≡ true → (assert b >> rest) ≡ rest
assert_pass {b = true} rest h = refl
assert_pass {b = false} rest h = cc

-- A run that returns got through its first call.
module _ {ℓ ℓ'} {A : Type ℓ} {B : Type ℓ'} where
  pub bind_ok :
      (call : Result A) (rest : A → Result B) {b : B}
      → (call >>= rest) ≡ ok b
      → (a : A) × (call ≡ ok a) × (rest a ≡ ok b)
  bind_ok (fault why) rest run = cc
  bind_ok (ok value) rest run = (value, refl, run)

pub ok_inj {ℓ} : {A : Type ℓ} {a a' : A} → ok a ≡ ok a' → a ≡ a'
ok_inj h = cc
