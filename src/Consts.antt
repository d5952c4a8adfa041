-- ===== src/Consts.antt =====
-- lib/snippets/DumpConsts.cc: the pass that prints the constant operands of a module.
pub mod Stops
pub mod Tests
use snippets_llvm.Base.{
  ℕ, ◌+◌, Bool, true, false, Option, none, some, List, [], ◌∷◌, ◌++◌, Text, codes, if◌then◌else◌,
}
use snippets_llvm.Outcome.{deref, aborted}
use snippets_llvm.Errs.{Run, lift, pure, fail, write, ◌>>=◌, ◌>>◌}
use snippets_llvm.Llvm.{Ir}
use snippets_llvm.Llvm.Classes.{
  constant, constant_int, constant_fp, constant_array, constant_pointer_null, constant_token_none,
  undef_value, constant_data_array, constant_struct, constant_expr, global_value, global_i_func,
  global_alias, global_variable, function,
}
use snippets_llvm.Streams.{decimal}

-- What the pass reads of LLVM besides `Ir`, printed where it is only printed.
pub record ConstReader (ir : Ir) : Type 0 where
  pub int_text : ir.Value → Text
  pub float_text : ir.Value → Text
  -- `getValueName` with its key and value; null for a value without a name
  pub value_name : ir.Value → Option (Text × Text)
  pub pointer_text : Option (Text × Text) → Text
  -- `getNumOperands`, `getPointerAlignment`
  pub num_operands : ir.Value → ℕ
  pub alignment_text : ir.Value → Text

module _ (ir : Ir) (reader : ConstReader ir) where
  open ir use {Value, isa, type_of, name, print_value, print_type, operands, blocks, insts}
  open reader use {int_text, float_text, value_name, pointer_text, num_operands, alignment_text}

  abbrev line : Text → Text → Run (Unit {0})
  line tag shown = write (tag ++ (shown ++ codes "\n"))

  unfoldable pub dump_global : Value → Run (Unit {0})
  dump_global c =
      if isa global_i_func c
      then line (codes "GlobalIFunc: ") (name c)
      else if isa global_alias c
      then line (codes "GlobalAlias: ") (name c)
      else if isa global_variable c
      then line (codes "GlobalVariable: ") (name c)
      else if isa function c
      then line (codes "Function: ") (name c)
      else pure tt

  -- The name of a constant array, through a pointer that may be null.
  unfoldable pub dump_array : Value → Run (Unit {0})
  dump_array c = do
    (key, value) ← lift (deref (value_name c))
    write (codes "ConstantArray: " ++ (key ++ (codes ": " ++ (value ++ codes "\n"))))

  -- `llvm_unreachable` aborts the program, as assertions are enabled.
  unfoldable pub dump_const : Value → Run (Unit {0})
  dump_const c =
      if isa constant_int c
      then line (codes "ConstantInt: value=") (int_text c)
      else if isa constant_fp c
      then line (codes "ConstantFP: value=") (float_text c)
      else if isa constant_array c
      then dump_array c
      else if isa constant_pointer_null c
      then line (codes "ConstantPointerNull: type=") (print_type (type_of c))
      else if isa constant_token_none c
      then line (codes "ConstantTokenNone: operands=")
          (decimal (num_operands c) ++ (codes "\tpointerAlign=" ++ alignment_text c))
      else if isa undef_value c
      then line (codes "UndefValue: pointAlign=") (alignment_text c)
      else if isa constant_data_array c
      then write (codes "ConstantDataArray: " ++ pointer_text (value_name c))
      else if isa constant_struct c
      then write (codes "ConstantStruct: " ++ pointer_text (value_name c))
      else if isa constant_expr c
      then line (codes "ConstantExpr: ") (print_type (type_of c))
      else if isa global_value c
      then dump_global c
      else fail aborted

  -- The body of the loop over the operands, at the operand `i`.
  unfoldable pub dump_operand : ℕ → Value → Run (Unit {0})
  dump_operand i v =
      if isa constant v
      then (do
        write (codes " i=" ++ (decimal i ++ codes ", CONST="))
        if isa global_value v
            then write (name v ++ codes "\n")
            else (do write (print_value v ++ codes "\n"); dump_const v))
      else pure tt

  unfoldable pub dump_operands : ℕ → List Value → Run (Unit {0})
  dump_operands i [] = pure tt
  dump_operands i (v ∷ vs) = do dump_operand i v; dump_operands (i + 1) vs

  unfoldable pub dump_inst_consts : Value → Run (Unit {0})
  dump_inst_consts i = do
    write (codes "INST:" ++ (print_value i ++ codes "\n"))
    dump_operands 0 (operands i)

  -- The three loops of the pass.
  unfoldable pub dump_insts_consts : List Value → Run (Unit {0})
  dump_insts_consts [] = pure tt
  dump_insts_consts (i ∷ is) = do dump_inst_consts i; dump_insts_consts is

  unfoldable pub dump_blocks_consts : List Value → Run (Unit {0})
  dump_blocks_consts [] = pure tt
  dump_blocks_consts (b ∷ bs) = do dump_insts_consts (insts b); dump_blocks_consts bs

  unfoldable pub dump_module_consts : List Value → Run (Unit {0})
  dump_module_consts [] = pure tt
  dump_module_consts (f ∷ fs) = do dump_blocks_consts (blocks f); dump_module_consts fs
