-- ===== src/CountBb/Setup/Tests.antt =====
-- The whole pass on a program with a helper and a `main` of two blocks, and `printf` declared.
use mathlib.Core.List.{Memᴰ}
use mathlib.Core.List.Memᴰ
use mathlib.Core.Logic.{ite, if_pos}
use native.Mathlib.Decide.{ℕ_discrete}
use snippets_llvm.Base.{
  ℕ, zero, suc, List, [], ◌∷◌, ◌≡◌, refl, Text, codes, text_eq, some, ◌+◌, ◌%◌, ◌≢◌,
}
use snippets_llvm.CountBb.Runs.{Machine, word}
use snippets_llvm.CountBb.{load, add_const, store}
use snippets_llvm.CountBb.Setup.Extends.{counted}
use snippets_llvm.CountBb.Setup.Sample.{
  Instr, term, old, made_load, made_add, made_store, operation, Program, editor,
}
use snippets_llvm.CountBb.Setup.Sample.Inserts.{editor_laws}
use snippets_llvm.CountBb.Setup.Sample.Laws.{editor_setups}

abbrev names : ℕ → Text
names zero = codes "helper"
names (suc zero) = codes "main"
names (suc (suc n)) = codes "printf"

abbrev bodies : ℕ → List ℕ
bodies zero = 0 ∷ []
bodies (suc zero) = 1 ∷ 2 ∷ []
bodies (suc (suc n)) = []

abbrev start : Program
start = record {
  ids = 0 ∷ 1 ∷ 2 ∷ [];
  names = names;
  bodies = bodies;
  code = λ b. old b 0 ∷ term b ∷ [];
  globals = [];
  texts = codes "fmt" ∷ [];
}

start_counted : counted editor editor_laws editor_setups start ≡ 0 ∷ 1 ∷ 2 ∷ []
unfolding text_eq
start_counted = refl

-- A machine that keeps the globals and the last result. The instructions that were there add one to
-- the global 5; others do nothing.
record Memory : Type 0 where
  cells : ℕ → ℕ
  last : ℕ

abbrev execute : Instr → Memory → Memory
execute (made_load b g) s = record { cells = s.cells; last = s.cells g }
execute (made_add b i n) s = record { cells = s.cells; last = (s.last + n) % word }
execute (made_store b i g) s = record {
  cells = λ h. ite (ℕ_discrete g h) s.last (s.cells h);
  last = s.last;
}
execute (old b k) s = record {
  cells = λ h. ite (ℕ_discrete 5 h) (s.cells 5 + 1) (s.cells h);
  last = s.last;
}
execute _ s = s

load_is : (i : Instr) (g : ℕ) → operation i ≡ some (load g) → (b : ℕ) × (i ≡ made_load b g)
load_is (made_load b h) g p = (b, cc p)
load_is _ g p = cc

add_is : (i x : Instr) (n : ℕ) → operation i ≡ some (add_const x n) → (b : ℕ) × (i ≡ made_add b x n)
add_is (made_add b y k) x n p = (b, cc p)
add_is _ x n p = cc

store_is : (i x : Instr) (g : ℕ) → operation i ≡ some (store x g) → (b : ℕ) × (i ≡ made_store b x g)
store_is (made_store b y h) x g p = (b, cc p)
store_is _ x g p = cc

abbrev machine : Machine editor editor_laws
machine = record {
  State = Memory;
  mem = λ s. s.cells;
  val = λ s i. s.last;
  step = execute;
  step_load = λ i g h s p. rw (load_is i g p).1 (refl, refl);
  step_add = λ i x n h s p. rw (add_is i x n p).1 (refl, refl);
  step_store = λ i x g s p. rw (store_is i x g p).1 (if_pos (ℕ_discrete g g) refl _ _);
}

-- The states agree in all cells but the counter's.
abbrev Agree : Memory → Memory → Type 0
Agree s t = (h : ℕ) → h ≢ 1 → s.cells h ≡ t.cells h
