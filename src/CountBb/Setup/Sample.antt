-- ===== src/CountBb/Setup/Sample.antt =====
-- Small modules for the whole pass: functions, blocks and globals are numbers, and an instruction
-- knows the block that it stands in.
pub mod Inserts
pub mod Laws
use native.Mathlib.Decide.{ℕ_discrete}
use snippets_llvm.Base.{
  ℕ, ◌+◌, Bool, true, false, ◌||◌, Option, none, some, List, [], ◌∷◌, ◌++◌, Text, text_eq, length,
  map, flat_map, if◌then◌else◌,
}
use snippets_llvm.CountBb.{
  Editor, FnType, Operation, load, add_const, store, call_with_fn, call_with, ret,
}
use snippets_llvm.Base.Names.{update, first_named, fresh}

-- The terminator of a block, another instruction that was there, or one created.
pub data Instr : Type 0 where
  term : ℕ → Instr
  old : ℕ → ℕ → Instr
  made_load : ℕ → ℕ → Instr
  made_add : ℕ → Instr → ℕ → Instr
  made_store : ℕ → Instr → ℕ → Instr
  made_call_fn : ℕ → ℕ → ℕ → Instr
  made_call : ℕ → ℕ → ℕ → Instr → Instr
  made_ret : ℕ → Instr

abbrev pub Op : Type 0
Op = Operation Instr ℕ ℕ ℕ

abbrev pub made : ℕ → Op → Instr
made b (load g) = made_load b g
made b (add_const i n) = made_add b i n
made b (store i g) = made_store b i g
made b (call_with_fn f g) = made_call_fn b f g
made b (call_with f c i) = made_call b f c i
made b ret = made_ret b

abbrev pub operation : Instr → Option Op
operation (term b) = none
operation (old b n) = none
operation (made_load b g) = some (load g)
operation (made_add b i n) = some (add_const i n)
operation (made_store b i g) = some (store i g)
operation (made_call_fn b f g) = some (call_with_fn f g)
operation (made_call b f c i) = some (call_with f c i)
operation (made_ret b) = some ret

abbrev pub block_of : Instr → ℕ
block_of (term b) = b
block_of (old b n) = b
block_of (made_load b g) = b
block_of (made_add b i n) = b
block_of (made_store b i g) = b
block_of (made_call_fn b f g) = b
block_of (made_call b f c i) = b
block_of (made_ret b) = b

abbrev pub place : ℕ → Instr → Instr
place c (term b) = term c
place c (old b n) = old c n
place c (made_load b g) = made_load c g
place c (made_add b i n) = made_add c i n
place c (made_store b i g) = made_store c i g
place c (made_call_fn b f g) = made_call_fn c f g
place c (made_call b f k i) = made_call c f k i
place c (made_ret b) = made_ret c

abbrev pub is_term : Instr → Bool
is_term (term b) = true
is_term _ = false

abbrev pub has_term : List Instr → Bool
has_term [] = false
has_term (i ∷ is) = is_term i || has_term is

-- Before the last terminator.
abbrev pub insert_last : Instr → List Instr → List Instr
insert_last new [] = new ∷ []
insert_last new (i ∷ is) =
    let rest = insert_last new is in
    if has_term is then i ∷ rest else if is_term i then new ∷ i ∷ is else i ∷ rest

abbrev pub insert_before : Instr → Instr → List Instr → List Instr
insert_before i new is = if is_term i then insert_last new is else new ∷ is

pub record Program : Type 0 where
  pub ids : List ℕ
  pub names : ℕ → Text
  pub bodies : ℕ → List ℕ
  pub code : ℕ → List Instr
  -- the variables that are found by name, and the names of the internal ones
  pub globals : List (Text × ℕ)
  pub texts : List Text

abbrev pub find_global : Text → List (Text × ℕ) → Option ℕ
find_global t [] = none
find_global t ((u, g) ∷ gs) = let rest = find_global t gs in if text_eq u t then some g else rest

abbrev pub add_global : Program → Text → Program × ℕ
add_global m t =
    let new = length m.globals + length m.texts in
    (record m { globals = m.globals ++ ((t, new) ∷ []) }, new)

abbrev pub add_text : Program → Text → Program × ℕ
add_text m t = (record m { texts = t ∷ m.texts }, length m.globals + length m.texts)

abbrev pub is_found : Option ℕ → Bool
is_found none = false
is_found (some n) = true

abbrev pub is_text : Text → List Text → Bool
is_text t [] = false
is_text t (u ∷ us) = text_eq u t || is_text t us

abbrev pub has_name : Program → Text → Bool
has_name m t =
    is_found (find_global t m.globals)
    || (is_found (first_named m.names t m.ids) || is_text t m.texts)

abbrev pub get_or_insert : Program → Text → Option ℕ → Program × Option ℕ
get_or_insert m t (some f) = (m, some f)
get_or_insert m t none =
    let new = fresh m.ids in
    (
      record m {
        ids = m.ids ++ (new ∷ []);
        names = update m.names new t;
        bodies = update m.bodies new [];
      },
      some new,
    )

abbrev pub add_block : Program → ℕ → Program × ℕ
add_block m f =
    let new = fresh (flat_map m.bodies m.ids) in
    (
      record m {
        bodies = update m.bodies f (m.bodies f ++ (new ∷ []));
        code = update m.code new [];
      },
      new,
    )

abbrev pub put_before : Program → Op → Option Instr → Program × Instr
put_before m o none = (m, made 0 o)
put_before m o (some i) =
    let new = made (block_of i) o in
    (
      record m { code = update m.code (block_of i) (insert_before i new (m.code (block_of i))) },
      new,
    )

abbrev pub put_last : Program → Op → ℕ → Program × Instr
put_last m o b =
    let new = made b o in (record m { code = update m.code b (m.code b ++ (new ∷ [])) }, new)

abbrev pub editor : Editor
editor = record {
  Module = Program;
  Fn = ℕ;
  Block = ℕ;
  Inst = Instr;
  Global = ℕ;
  Constant = ℕ;
  functions = λ m. m.ids;
  fn_name = λ m. m.names;
  blocks = λ m. m.bodies;
  insts = λ m b. map (place b) (m.code b);
  terminator = λ m b. some (term b);
  get_function = λ m t. first_named m.names t m.ids;
  get_global_variable = λ m t. find_global t m.globals;
  get_or_insert_function = λ m t ty no_unwind. get_or_insert m t (first_named m.names t m.ids);
  new_counter = λ m t n. add_global m t;
  new_text = λ m s t. add_text m t;
  get_element_ptr = λ g is. g;
  create_block = λ m t f. add_block m f;
  create_before = λ m o n p. put_before m o p;
  create_at_end = λ m o n b. put_last m o b;
}
