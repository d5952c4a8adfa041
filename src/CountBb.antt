-- ===== src/CountBb.antt =====
-- lib/snippets/CountExecBB.cc: the pass count-bb, which adds a counter of executed blocks to a
-- module, and `geti8StrVal` of lib/mybase/LLUtils.cc.
pub mod Visits
pub mod Whole
pub mod Setup
pub mod Runs
pub mod Tests
use snippets_llvm.Base.{
  ℕ, Bool, true, false, Option, none, some, List, [], ◌∷◌, Text, codes, text_eq, if◌then◌else◌,
}
use snippets_llvm.Outcome.{Outcome, ok, fault, exited, assertion, front, ◌>>=◌, ◌>>◌}

-- `FunctionType`s of the pass, from its uses of `TypeBuilder`
pub data FnType : Type 0 where
  -- `int(char *, ...)`, `void(void)` and `int(void(void))`
  printf_type void_type atexit_type : FnType

-- The instructions that the pass creates, over instructions, functions, globals and constants.
pub data Operation (Inst Fn Global Constant : Type 0) : Type 0 where
  load : Global → Operation Inst Fn Global Constant
  -- `BinaryOperator::Create(Instruction::Add, x, ConstantInt::get(…, n))`
  add_const : Inst → ℕ → Operation Inst Fn Global Constant
  store : Inst → Global → Operation Inst Fn Global Constant
  -- of a function with the address of a function
  call_with_fn : Fn → Fn → Operation Inst Fn Global Constant
  -- of a function with a constant and the result of an instruction
  call_with : Fn → Constant → Inst → Operation Inst Fn Global Constant
  ret : Operation Inst Fn Global Constant

-- What the pass calls of LLVM to read and to change a module.
pub record Editor : Type 1 where
  pub Module : Type 0
  pub Fn : Type 0
  pub Block : Type 0
  pub Inst : Type 0
  pub Global : Type 0
  pub Constant : Type 0
  -- the functions of a module, `getName`, the blocks of a function and instructions of a block
  pub functions : Module → List Fn
  pub fn_name : Module → Fn → Text
  pub blocks : Module → Fn → List Block
  pub insts : Module → Block → List Inst
  -- `getTerminator` is null for a block that is not complete.
  pub terminator : Module → Block → Option Inst
  -- `getFunction`, `getGlobalVariable`
  pub get_function : Module → Text → Option Fn
  pub get_global_variable : Module → Text → Option Global
  -- `getOrInsertFunction`, and whether it is marked `NoUnwind`; what it yields may not be a function
  pub get_or_insert_function : Module → Text → FnType → Bool → Module × Option Fn
  -- `new GlobalVariable`: a counter of type `i64` with external linkage that starts at a number, and
  -- a constant text with internal linkage
  pub new_counter : Module → Text → ℕ → Module × Global
  pub new_text : Module → Text → Text → Module × Global
  -- `ConstantExpr::getGetElementPtr` by constant indices
  pub get_element_ptr : Global → List ℕ → Constant
  -- `BasicBlock::Create`
  pub create_block : Module → Text → Fn → Module × Block
  -- an instruction with a name, before another one (in no block, if that is null) or at a block's end
  pub create_before :
      Module → Operation Inst Fn Global Constant → Text → Option Inst → Module × Inst
  pub create_at_end : Module → Operation Inst Fn Global Constant → Text → Block → Module × Inst

abbrev pub setup_at_exit : Text
setup_at_exit = codes "setupAtExit"

abbrev pub bb_counter : Text
bb_counter = codes "bbCounter"

-- `cast<Function>`
abbrev cast_function : {A B : Type 0} → A × Option B → Outcome (A × B)
cast_function (m, none) = fault assertion
cast_function (m, some f) = ok (m, f)

-- a pointer that an assertion wants not to be null
abbrev assert_some : {A : Type 0} → Option A → Outcome A
assert_some none = fault assertion
assert_some (some a) = ok a

module _ (e : Editor) where
  open e use {
    Module, Fn, Block, Inst, Global, Constant, functions, fn_name, blocks, insts, terminator,
    get_function, get_global_variable, get_or_insert_function, new_counter, new_text,
    get_element_ptr, create_block, create_before, create_at_end,
  }

  unfoldable pub get_i8_str_val : Module → Text → Text → Module × Constant
  get_i8_str_val m str name =
      let (m', gv_str) = new_text m str name in (m', get_element_ptr gv_str (0 ∷ 0 ∷ []))

  unfoldable pub create_atexit_call : Module → Fn → Global → Outcome Module
  create_atexit_call m f counter = do
    (m1, entry_bb) ← ok (create_block m (codes "entry") f)
    (m2, printf_fn) ← cast_function (get_or_insert_function m1 (codes "printf") printf_type false)
    (m3, bb_value) ← ok (create_at_end m2 (load counter) (codes "bbValue") entry_bb)
    (m4, fmt) ← ok (get_i8_str_val m3 (codes "%d BB(s) Executed\n") (codes "fmt"))
    (m5, call) ← ok (create_at_end m4 (call_with printf_fn fmt bb_value) [] entry_bb)
    (m6, last) ← ok (create_at_end m5 ret [] entry_bb)
    ok m6

  -- `exit(1)` without a function `main`
  abbrev main_of : Option Fn → Outcome Fn
  main_of none = fault (exited 1)
  main_of (some main) = ok main

  unfoldable pub setup : Module → Outcome Module
  setup m = do
    main ← main_of (get_function m (codes "main"))
    (m1, counter) ← ok (new_counter m bb_counter 0)
    (m2, aexit_call) ← cast_function (get_or_insert_function m1 setup_at_exit void_type false)
    (m3, atexit_fn) ← cast_function (get_or_insert_function m2 (codes "atexit") atexit_type true)
    entry ← front (blocks m3 main)
    i ← front (insts m3 entry)
    (m4, call) ← ok (create_before m3 (call_with_fn atexit_fn aexit_call) [] (some i))
    create_atexit_call m4 aexit_call counter

  unfoldable pub run_on_basic_block : Module → Block → Outcome Module
  run_on_basic_block m b = do
    counter ← assert_some (get_global_variable m bb_counter)
    (m1, old) ← ok (create_before m (load counter) (codes "old.bb.count") (terminator m b))
    (m2, new) ← ok (create_before m1 (add_const old 1) (codes "new.bb.count") (terminator m b))
    (m3, stored) ← ok (create_before m2 (store new counter) [] (terminator m b))
    ok m3

  -- The loop over the blocks of a function.
  unfoldable pub run_on_blocks : Module → List Block → Outcome Module
  run_on_blocks m [] = ok m
  run_on_blocks m (b ∷ bs) = run_on_basic_block m b >>= λ m'. run_on_blocks m' bs

  -- The loop over the functions, which passes by the one that `setup` fills.
  unfoldable pub run_on_functions : Module → List Fn → Outcome Module
  run_on_functions m [] = ok m
  run_on_functions m (f ∷ fs) =
      if text_eq (fn_name m f) setup_at_exit
      then run_on_functions m fs
      else run_on_blocks m (blocks m f) >>= λ m'. run_on_functions m' fs

  unfoldable pub run_on_module : Module → Outcome Module
  run_on_module m = setup m >>= λ m'. run_on_functions m' (functions m')
