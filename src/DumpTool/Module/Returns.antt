-- ===== src/DumpTool/Module/Returns.antt =====
-- On which modules the dump tool returns.
use snippets_llvm.Base.{
  ℕ, ◌+◌, ◌%◌, ◌^◌, Bool, true, false, not, ◌&&◌, Option, none, some, List, [], ◌∷◌, ◌≡◌, ◌↔◌, ◌≢◌,
  codes, refl, arith, Text, All,
}
use snippets_llvm.Outcome.{ok}
use snippets_llvm.Llvm.{Ir}
use snippets_llvm.Llvm.Classes.{function, instruction}
use snippets_llvm.Llvm.Ids.{function_ty_id}
use snippets_llvm.Llvm.Laws.{IsClassTree, HasOpcodes}
use snippets_llvm.Dump.Names.{type_case, get_type_str}
use snippets_llvm.Dump.Linkage.{dump_gv_info, dump_linkage_type, dump_keys, dump_lty_info}
use snippets_llvm.DumpTool.{Reader}
use snippets_llvm.DumpTool.Stops.{some_stops, dump_basic_block_returns}
use snippets_llvm.DumpTool.Module.{
  FunctionReader, dump_params, dump_fn_ty, dump_blocks, run_on_func, run_on_funcs, run_on_module,
  run_parsed, dump_main,
}

-- A function has a function type; its blocks are its own and hold instructions.
pub record IsFunctionTree (ir : Ir) : Type 0 where
  pub function_type_id :
      (f : ir.Value) → ir.isa function f ≡ true → ir.type_id (ir.function_type f) ≡ function_ty_id
  pub blocks_in :
      (f : ir.Value)
      → ir.isa function f ≡ true
      → All
          (λ b. (ir.parent b ≡ some f) × All (λ i. ir.isa instruction i ≡ true) (ir.insts b))
          (ir.blocks f)

abbrev is_some : {A : Type 0} → Option A → Bool
is_some none = false
is_some (some a) = true

module _ (ir : Ir) (reader : Reader ir) (functions : FunctionReader ir) where
  open ir use {Value, Ty, isa, type_id, function_type, blocks, insts, parent}
  open functions use {
    LinkageType, is_key, linkage, is_materializable, return_type, params, parse_ir_file,
  }

  -- `getTypeStr` has a case for the type's kind.
  abbrev pub is_named : Ty → Bool
  is_named t = is_some (type_case (type_id t))

  abbrev pub all_named : List Ty → Bool
  all_named [] = true
  all_named (t ∷ ts) = is_named t && all_named ts

  -- No block has an instruction that stops the tool.
  abbrev pub none_stops : List Value → Bool
  none_stops [] = true
  none_stops (b ∷ bs) = not (some_stops ir reader (insts b)) && none_stops bs

  -- The tool gets through a function, and through functions.
  abbrev pub is_dumped : Value → Bool
  is_dumped f =
      is_named (return_type (function_type f))
      && all_named (params (function_type f))
      && none_stops (blocks f)

  abbrev pub all_dumped : List Value → Bool
  all_dumped [] = true
  all_dumped (f ∷ fs) = is_dumped f && all_dumped fs

  -- What a file holds are functions, and the tool gets through them.
  abbrev pub HoldsFunctions : Option (List Value) → Type 0
  HoldsFunctions none = Unit
  HoldsFunctions (some fs) = All (λ f. isa function f ≡ true) fs

  abbrev pub is_parsed_dumped : Option (List Value) → Bool
  is_parsed_dumped none = false
  is_parsed_dumped (some fs) = all_dumped fs

  abbrev pub is_given_dumped : List Text → Bool
  is_given_dumped [] = false
  is_given_dumped (file ∷ rest) = is_parsed_dumped (parse_ir_file file)

  function_named : type_case function_ty_id ≡ some (codes "Type::FunctionTyID")
  unfolding type_case
  function_named = refl

  dump_params-end :
      (i : ℕ) (ts : List Ty)
      → ((dump_params ir reader functions i ts).end ≡ ok tt) ↔ (all_named ts ≡ true)
  unfolding dump_params get_type_str
  dump_params-end i [] = ground arith
  dump_params-end i (t ∷ ts) = ground (arith, dump_params-end ((i + 1) % 2 ^ 32) ts)

  dump_gv_info-end :
      (f : Value) → (dump_gv_info LinkageType is_key (is_materializable f) (linkage f)).end ≡ ok tt
  unfolding dump_gv_info dump_linkage_type dump_keys dump_lty_info
  dump_gv_info-end f = refl

  module _ (tree : IsClassTree ir) (opcodes : HasOpcodes ir) (owners : IsFunctionTree ir) where
    dump_fn_ty-end :
        (f : Value)
        → isa function f ≡ true
        → ((dump_fn_ty ir reader functions f).end ≡ ok tt) ↔ (
            (is_named (return_type (function_type f)) && all_named (params (function_type f)))
            ≡ true)
    unfolding dump_fn_ty get_type_str
    dump_fn_ty-end f h = ground (
      arith,
      owners.function_type_id f h,
      function_named,
      dump_params-end 0 (params (function_type f)),
    )

    dump_blocks-end :
        (f : Value) (bs : List Value)
        → All (λ b. (parent b ≡ some f) × All (λ i. isa instruction i ≡ true) (insts b)) bs
        → ((dump_blocks ir reader functions bs).end ≡ ok tt) ↔ (none_stops bs ≡ true)
    unfolding dump_blocks
    dump_blocks-end f [] h = ground arith
    dump_blocks-end f (b ∷ bs) h = ground (
      arith,
      dump_basic_block_returns ir reader tree opcodes b f h.0.0 h.0.1,
      dump_blocks-end f bs h.1,
    )

    run_on_func-end :
        (f : Value)
        → isa function f ≡ true
        → ((run_on_func ir reader functions f).end ≡ ok false) ↔ (is_dumped f ≡ true)
    unfolding run_on_func
    run_on_func-end f h = ground (
      arith,
      dump_fn_ty-end f h,
      dump_gv_info-end f,
      dump_blocks-end f (blocks f) (owners.blocks_in f h),
    )

    -- `run_on_func` never says that it has changed something.
    run_on_func-unchanged : (f : Value) → (run_on_func ir reader functions f).end ≢ ok true
    unfolding run_on_func
    run_on_func-unchanged f = ground arith

    run_on_funcs-end :
        (fs : List Value)
        → All (λ f. isa function f ≡ true) fs
        → ((run_on_funcs ir reader functions fs).end ≡ ok tt) ↔ (all_dumped fs ≡ true)
    unfolding run_on_funcs
    run_on_funcs-end [] h = ground arith
    run_on_funcs-end (f ∷ fs) h =
        ground (arith, run_on_func-end f h.0, run_on_func-unchanged f, run_on_funcs-end fs h.1)

    run_on_module-end :
        (fs : List Value)
        → All (λ f. isa function f ≡ true) fs
        → ((run_on_module ir reader functions fs).end ≡ ok false) ↔ (all_dumped fs ≡ true)
    unfolding run_on_module
    run_on_module-end fs h = ground (arith, run_on_funcs-end fs h)

    run_on_module-unchanged :
        (fs : List Value) → (run_on_module ir reader functions fs).end ≢ ok true
    unfolding run_on_module
    run_on_module-unchanged fs = ground arith

    run_parsed-end :
        (program file : Text) (parsed : Option (List Value))
        → HoldsFunctions parsed
        → ((run_parsed ir reader functions program file parsed).end ≡ ok 0)
          ↔ (is_parsed_dumped parsed ≡ true)
    run_parsed-end program file none h = ground arith
    run_parsed-end program file (some fs) h =
        ground (arith, run_on_module-end fs h, run_on_module-unchanged fs)

    -- If files that can be parsed hold functions, the tool returns, with the code 0, exactly if it
    -- is given a file that can be parsed, and in each function of this file the types of the result
    -- and of the parameters are of kinds with names, and no instruction is an address computation,
    -- a phi node, or a call that is not direct.
    pub dump_main_returns :
        ((file : Text) → HoldsFunctions (parse_ir_file file))
        → (program : Text) (args : List Text)
        → ((dump_main ir reader functions program args).end ≡ ok 0) ↔ (is_given_dumped args ≡ true)
    unfolding dump_main
    dump_main_returns h program [] = ground arith
    dump_main_returns h program (file ∷ rest) =
        run_parsed-end program file (parse_ir_file file) (h file)
