-- ===== src/CountBb/Tests.antt =====
-- The pass count-bb on a small module: a function `main` of two blocks.
use mathlib.Core.List.{Memᴰ}
use mathlib.Core.List.Memᴰ
use mathlib.Core.Logic.{ite, if_pos, if_neg}
use native.Mathlib.Decide.{ℕ_discrete}
use snippets_llvm.Base.{
  ◌+◌, ◌%◌, ℕ, zero, suc, Option, none, some, List, [], ◌∷◌, ◌++◌, ◌≡◌, refl, ap, ◌∙◌, arith, Text,
  codes, text_eq, if◌then◌else◌, subst, inl, inr, Memᴰ-cons,
}
use snippets_llvm.Outcome.{Outcome, ok, fault}
use snippets_llvm.CountBb.{
  Editor, Operation, load, add_const, store, call_with_fn, call_with, ret, setup,
  create_atexit_call, get_i8_str_val,
}
use snippets_llvm.CountBb.Runs.{Machine, word, Quiet}
use snippets_llvm.CountBb.Visits.{IsEditor, Terminated}

-- An instruction: the terminator of a block, another one that was there, or one created.
data Instr : Type 0 where
  term : ℕ → Instr
  old : ℕ → Instr
  made_load : ℕ → Instr
  made_add : Instr → ℕ → Instr
  made_store : Instr → ℕ → Instr
  made_call_fn : ℕ → ℕ → Instr
  made_call : ℕ → ℕ → Instr → Instr
  made_ret : Instr

abbrev Op : Type 0
Op = Operation Instr ℕ ℕ ℕ

abbrev made : Op → Instr
made (load g) = made_load g
made (add_const i n) = made_add i n
made (store i g) = made_store i g
made (call_with_fn f g) = made_call_fn f g
made (call_with f c i) = made_call f c i
made ret = made_ret

abbrev operation : Instr → Option Op
operation (term b) = none
operation (old b) = none
operation (made_load g) = some (load g)
operation (made_add i n) = some (add_const i n)
operation (made_store i g) = some (store i g)
operation (made_call_fn f g) = some (call_with_fn f g)
operation (made_call f c i) = some (call_with f c i)
operation made_ret = some ret

-- The instructions of each block.
abbrev Blocks : Type 0
Blocks = ℕ → List Instr

abbrev update : Blocks → ℕ → (List Instr → List Instr) → Blocks
update m b f c = ite (ℕ_discrete b c) (f (m c)) (m c)

abbrev insert_last : Instr → List Instr → List Instr
insert_last i [] = i ∷ []
insert_last i (x ∷ []) = i ∷ x ∷ []
insert_last i (x ∷ y ∷ xs) = x ∷ insert_last i (y ∷ xs)

-- Before the terminator of a block, or before its first instruction.
abbrev insert_at : Blocks → Instr → Instr → Blocks
insert_at m i (term b) = update m b (insert_last i)
insert_at m i (old b) = update m b (λ is. i ∷ is)
insert_at m i _ = m

abbrev insert_before : Blocks → Instr → Option Instr → Blocks
insert_before m i none = m
insert_before m i (some p) = insert_at m i p

abbrev names : ℕ → Text
names zero = codes "main"
names (suc zero) = codes "setupAtExit"
names (suc (suc zero)) = codes "printf"
names (suc (suc (suc n))) = codes "atexit"

abbrev named : Text → ℕ
named t = if text_eq t (codes "setupAtExit") then 1 else if text_eq t (codes "printf") then 2 else 3

abbrev body : ℕ → List ℕ
body zero = 0 ∷ 1 ∷ []
body (suc zero) = 2 ∷ []
body (suc (suc n)) = []

abbrev editor : Editor
editor = record {
  Module = Blocks;
  Fn = ℕ;
  Block = ℕ;
  Inst = Instr;
  Global = ℕ;
  Constant = ℕ;
  functions = λ m. 0 ∷ 1 ∷ 2 ∷ 3 ∷ [];
  fn_name = λ m. names;
  blocks = λ m. body;
  insts = λ m. m;
  terminator = λ m b. some (term b);
  get_function = λ m t. some 0;
  get_global_variable = λ m t. some 7;
  get_or_insert_function = λ m t ty no_unwind. (m, some (named t));
  new_counter = λ m t n. (m, 7);
  new_text = λ m s n. (m, 8);
  get_element_ptr = λ g is. g;
  create_block = λ m t f. (m, 2);
  create_before = λ m o n p. (insert_before m (made o) p, made o);
  create_at_end = λ m o n b. (update m b (λ is. is ++ (made o ∷ [])), made o);
}

operation-made : (o : Op) → operation (made o) ≡ some o
operation-made (load g) = refl
operation-made (add_const i n) = refl
operation-made (store i g) = refl
operation-made (call_with_fn f g) = refl
operation-made (call_with f c i) = refl
operation-made ret = refl

insert_last-append :
    (i t : Instr) (xs : List Instr) → insert_last i (xs ++ (t ∷ [])) ≡ xs ++ (i ∷ t ∷ [])
insert_last-append i t [] = refl
insert_last-append i t (x ∷ []) = refl
insert_last-append i t (x ∷ y ∷ xs) = ap (◌∷◌ x) (insert_last-append i t (y ∷ xs))

some-inj : {A : Type 0} {a b : A} → some a ≡ some b → a ≡ b
some-inj h = cc

abbrev editor_laws : IsEditor editor
editor_laws = record {
  operation = operation;
  created = λ m o n p. operation-made o;
  same_fn_name = λ m o n p. refl;
  same_blocks = λ m o n p. refl;
  same_globals = λ m o n p. refl;
  same_terminator = λ m o n p. refl;
  before_terminator = λ m o n b t xs ht hi.
      subst (λ u. insert_at m (made o) u b ≡ xs ++ (made o ∷ t ∷ [])) (some-inj ht)
        (if_pos (ℕ_discrete b b) refl _ _
          ∙ ap (insert_last (made o)) hi
          ∙ insert_last-append (made o) t xs);
  elsewhere = λ m o n b c t ht ne.
      subst (λ u. insert_at m (made o) u c ≡ m c) (some-inj ht) (if_neg (ℕ_discrete b c) ne _ _);
}

abbrev start : Blocks
start zero = old 0 ∷ term 0 ∷ []
start (suc zero) = term 1 ∷ []
start (suc (suc n)) = []

abbrev result : Outcome Blocks → Blocks
result (ok m) = m
result (fault x) = start

abbrev ready : Blocks
ready = result (setup editor start)

outside : (b : ℕ) → ¬ Memᴰ (suc (suc b)) (0 ∷ 1 ∷ [])
outside b h = elim ((Memᴰ-cons (suc (suc b)) 0 (1 ∷ [])).0 h) [
  | inl p ↦ omega (arith, p)
  | inr q ↦ omega (arith, Memᴰ.eq_of_singleton q)
]

ends : (b : ℕ) → Memᴰ b (0 ∷ 1 ∷ []) → Terminated editor editor_laws ready b
unfolding setup create_atexit_call get_i8_str_val ℕ_discrete text_eq
ends zero h = (term 0, made_call_fn 3 1 ∷ old 0 ∷ [], refl, refl)
ends (suc zero) h = (term 1, [], refl, refl)
ends (suc (suc b)) h = absurd (outside b h)

-- A machine that keeps the globals and the last result; other instructions do nothing.
record Memory : Type 0 where
  globals : ℕ → ℕ
  last : ℕ

abbrev execute : Instr → Memory → Memory
execute (made_load g) s = record { globals = s.globals; last = s.globals g }
execute (made_add i n) s = record { globals = s.globals; last = (s.last + n) % word }
execute (made_store i g) s = record {
  globals = λ h. ite (ℕ_discrete g h) s.last (s.globals h);
  last = s.last;
}
execute _ s = s

load_is : (i : Instr) (g : ℕ) → operation i ≡ some (load g) → i ≡ made_load g
load_is (made_load h) g p = cc
load_is _ g p = cc

add_is : (i x : Instr) (n : ℕ) → operation i ≡ some (add_const x n) → i ≡ made_add x n
add_is (made_add y k) x n p = cc
add_is _ x n p = cc

store_is : (i x : Instr) (g : ℕ) → operation i ≡ some (store x g) → i ≡ made_store x g
store_is (made_store y h) x g p = cc
store_is _ x g p = cc

abbrev machine : Machine editor editor_laws
machine = record {
  State = Memory;
  mem = λ s. s.globals;
  val = λ s i. s.last;
  step = execute;
  step_load = λ i g h s p. rw (load_is i g p) (refl, refl);
  step_add = λ i x n h s p. rw (add_is i x n p) (refl, refl);
  step_store = λ i x g s p. rw (store_is i x g p) (if_pos (ℕ_discrete g g) refl _ _);
}

quiet :
    (b : ℕ)
    → Memᴰ b (0 ∷ 1 ∷ [])
    → (i : Instr) → Memᴰ i (ready b)
    → Quiet editor editor_laws machine 7 i
unfolding setup create_atexit_call get_i8_str_val ℕ_discrete text_eq
quiet zero m i h s = elim ((Memᴰ-cons i (made_call_fn 3 1) (old 0 ∷ term 0 ∷ [])).0 h) [
  | inl p ↦ rw p refl
  | inr h1 ↦ elim ((Memᴰ-cons i (old 0) (term 0 ∷ [])).0 h1) [
    | inl p ↦ rw p refl
    | inr h2 ↦ rw (Memᴰ.eq_of_singleton h2) refl
  ]
]
quiet (suc zero) m i h s = rw (Memᴰ.eq_of_singleton h) refl
quiet (suc (suc b)) m i h s = absurd (outside b m)
