-- ===== src/Errs.antt =====
-- `llvm::errs()`: what is written to it, colour changes included, and code that writes before it
-- ends by a value or a fault (`WITH_COLOR` of include/LLDump.hh).
pub mod Ends
pub mod Colors
pub mod Titles
use snippets_llvm.Base.{Text, List, [], ◌∷◌, ◌++◌}
use snippets_llvm.Outcome.{Outcome, ok, fault, Fault}

pub data Color : Type 0 where
  red green yellow magenta cyan : Color

pub data Chunk : Type 0 where
  text : Text → Chunk
  change_color : Color → Chunk
  reset_color : Chunk

pub record Run {ℓ} (A : Type ℓ) : Type ℓ where
  pub out : List Chunk
  pub end : Outcome A

abbrev pub then_run {ℓ κ} : {A : Type ℓ} {B : Type κ} → List Chunk → Outcome A → (A → Run B) → Run B
then_run out (ok a) f = record { out = out ++ (f a).out; end = (f a).end }
then_run out (fault e) f = record { out = out; end = fault e }

infixl 5 ◌>>=◌ ◌>>◌
abbrev pub ◌>>=◌ {ℓ κ} : {A : Type ℓ} {B : Type κ} → Run A → (A → Run B) → Run B
m >>= f = then_run m.out m.end f

abbrev pub ◌>>◌ {ℓ} : {B : Type ℓ} → Run (Unit {0}) → Run B → Run B
m >> k = m >>= λ _. k

abbrev pub pure {ℓ} : {A : Type ℓ} → A → Run A
pure a = record { out = []; end = ok a }

abbrev pub fail {ℓ} : {A : Type ℓ} → Fault → Run A
fail e = record { out = []; end = fault e }

-- code that writes nothing
abbrev pub lift {ℓ} : {A : Type ℓ} → Outcome A → Run A
lift o = record { out = []; end = o }

-- `errs() << t`
abbrev pub write : Text → Run (Unit {0})
write t = record { out = text t ∷ []; end = ok tt }

-- `WITH_COLOR(c, x)`
abbrev pub with_color : Color → Run (Unit {0}) → Run (Unit {0})
with_color c x = do
  record { out = change_color c ∷ []; end = ok tt }
  x
  record { out = reset_color ∷ []; end = ok tt }
