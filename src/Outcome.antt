-- ===== src/Outcome.antt =====
-- How C++ code of the repository can end: by a value, or by a fault that stops the program.
use snippets_llvm.Base.{
  ℕ, Text, Bool, true, false, Option, none, some, List, [], ◌∷◌, ◌≡◌, refl, ◌⊎◌, inl, inr,
}

pub data Fault : Type 0 where
  -- `assert`, also those inside LLVM that its documentation states, as for `cast` of another class
  assertion : Fault
  -- `dyn_cast` or a method call on a null pointer
  null_pointer : Fault
  -- `report_fatal_error`
  fatal_error : Text → Fault
  -- `abort`
  aborted : Fault
  -- `exit` with a code
  exited : ℕ → Fault
  -- a C++ exception that nobody catches, as the `out_of_range` of `substr`
  uncaught : Fault
  -- what the C++ standard leaves undefined: a use or a `delete` of what is not there, an index out of
  -- range, a `static_cast` to another class
  undefined : Fault

pub data Outcome {ℓ} (A : Type ℓ) : Type ℓ where
  ok : A → Outcome A
  fault : Fault → Outcome A

infixl 5 ◌>>=◌ ◌>>◌
abbrev pub ◌>>=◌ {ℓ κ} : {A : Type ℓ} {B : Type κ} → Outcome A → (A → Outcome B) → Outcome B
ok a >>= f = f a
fault e >>= f = fault e

abbrev pub ◌>>◌ {ℓ} : {B : Type ℓ} → Outcome (Unit {0}) → Outcome B → Outcome B
m >> k = m >>= λ _. k

-- `assert(c)`
abbrev pub check : Bool → Outcome (Unit {0})
check true = ok tt
check false = fault assertion

module _ {ℓ} {A : Type ℓ} where
  -- a use of a pointer that may be null
  abbrev pub deref : Option A → Outcome A
  deref none = fault null_pointer
  deref (some a) = ok a

  -- `front()` of an `ilist`, which asserts that there is a first element
  abbrev pub front : List A → Outcome A
  front [] = fault assertion
  front (a ∷ rest) = ok a

pub then_assoc : (a b c : Outcome (Unit {0})) → ((a >> b) >> c) ≡ (a >> (b >> c))
then_assoc (ok a) b c = refl
then_assoc (fault e) b c = refl

pub Outcome-cases {ℓ} :
    {A : Type ℓ} (o : Outcome A) → ((a : A) × (o ≡ ok a)) ⊎ ((e : Fault) × (o ≡ fault e))
Outcome-cases (ok a) = inl (a, refl)
Outcome-cases (fault e) = inr (e, refl)
