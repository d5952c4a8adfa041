-- ===== src/Consts/Stops.antt =====
-- On which modules the pass that prints constants stops.
use snippets_llvm.Base.{
  if◌then◌else◌, Bool, true, false, not, ◌||◌, none, List, [], ◌∷◌, ◌≡◌, flat_map,
}
use snippets_llvm.Outcome.{Outcome, aborted, ◌>>◌, ok, fault, null_pointer}
use snippets_llvm.Llvm.{Ir}
use snippets_llvm.Llvm.Classes.{
  constant, constant_int, constant_fp, constant_array, constant_pointer_null, constant_token_none,
  undef_value, constant_data_array, constant_struct, constant_expr, global_value,
}
use snippets_llvm.Consts.{ConstReader}

-- Constants other than global values have no names.
abbrev pub NoNames : (ir : Ir) → ConstReader ir → Type 0
NoNames ir reader =
    (v : ir.Value)
    → ir.isa constant v ≡ true
    → ir.isa global_value v ≡ false
    → reader.value_name v ≡ none

module _ (ir : Ir) (reader : ConstReader ir) where
  open ir use {Value, isa, operands, blocks, insts}

  -- The constants that the pass can print: global values, and those of eight classes.
  abbrev pub printable : Value → Bool
  printable v =
      isa global_value v
      || isa constant_int v
      || isa constant_fp v
      || isa constant_pointer_null v
      || isa constant_token_none v
      || isa undef_value v
      || isa constant_data_array v
      || isa constant_struct v
      || isa constant_expr v

  -- The operands of the instructions of a block, of a function and of a module.
  abbrev pub insts_operands : List Value → List Value
  insts_operands is = flat_map operands is

  abbrev pub blocks_operands : List Value → List Value
  blocks_operands bs = flat_map (λ b. insts_operands (insts b)) bs

  abbrev pub module_operands : List Value → List Value
  module_operands fs = flat_map (λ f. blocks_operands (blocks f)) fs

  -- How one operand ends the pass, and how operands do, one after the other.
  abbrev pub operand_end : Value → Outcome (Unit {0})
  operand_end v =
      if not (isa constant v) || printable v
      then ok tt
      else if isa constant_array v
      then fault null_pointer
      else fault aborted

  abbrev pub operands_end : List Value → Outcome (Unit {0})
  operands_end [] = ok tt
  operands_end (v ∷ vs) = operand_end v >> operands_end vs
