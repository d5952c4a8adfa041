-- ===== src/DumpTool.antt =====
-- tools/dump/Dump.cc: what the tool prints of a basic block.
pub mod Stops
pub mod Plain
pub mod Titles
pub mod Module
pub mod Tests
use snippets_llvm.Base.{
  ℕ, Bool, true, false, ◌&&◌, Option, none, some, List, [], ◌∷◌, ◌++◌, Text, codes, drop,
  if◌then◌else◌, length,
}
use snippets_llvm.Outcome.{Outcome, ok, deref}
use snippets_llvm.Errs.{Run, lift, pure, write, with_color, cyan, ◌>>=◌, ◌>>◌}
use snippets_llvm.Llvm.{Ir, is_pointer_ty, element_type, dyn_cast_pointer, get_operand}
use snippets_llvm.Llvm.Classes.{
  Class, alloca_inst, get_element_ptr_inst, phi_node, call_inst, inline_asm, intrinsic_inst,
  dbg_info_intrinsic, va_copy_inst, va_end_inst, va_start_inst, mem_set_inst, mem_cpy_inst,
  mem_move_inst,
}
use snippets_llvm.Dump.Names.{get_value_str, get_type_str}
use snippets_llvm.Dump.Printing.{pp_name}
use snippets_llvm.Dump.Linkage.{bool_text}

-- Classes of intrinsics that only the tool asks about, and that overlap with the others.
pub data MoreClass : Type 0 where
  constrained_fp_intrinsic atomic_mem_cpy_inst atomic_mem_move_inst : MoreClass
  any_mem_cpy_inst any_mem_move_inst : MoreClass

-- What the tool reads of LLVM besides `Ir`.
pub record Reader (ir : Ir) : Type 0 where
  pub isa_more : MoreClass → ir.Value → Bool
  -- `getAllocatedType`, `getTypeSizeInBits`, and how numbers are printed
  pub allocated_type : ir.Value → ir.Ty
  pub size_in_bits : ir.Ty → ℕ
  pub decimal : ℕ → Text
  -- the predecessors of a block, and `getBasicBlockIndex`, printed (it may be -1)
  pub preds : ir.Value → List ir.Value
  pub index_text : ir.Value → ir.Value → Text
  -- `getNumIncomingValues`
  pub num_incoming : ir.Value → ℕ
  -- InlineAsm: `getAsmString`, `getConstraintString`, `isAlignStack`, `getDialect() == AD_ATT`, and
  -- the address of its type; and `write_escaped`
  pub asm_string : ir.Value → Text
  pub constraint_string : ir.Value → Text
  pub is_align_stack : ir.Value → Bool
  pub is_att : ir.Value → Bool
  pub type_address : ir.Value → Text
  pub escaped : Text → Text

module _ (ir : Ir) (reader : Reader ir) where
  open ir use {
    Value, Ty, isa, type_of, name, print_value, print_type, operands, insts, parent,
    called_function, has_side_effects,
  }
  open reader use {
    isa_more, allocated_type, size_in_bits, decimal, preds, index_text, num_incoming, asm_string,
    constraint_string, is_align_stack, is_att, type_address, escaped,
  }

  -- A type, or what it points to after `POINT`, whose kind must have a name.
  unfoldable pub point_type : Ty → Run (Unit {0})
  point_type t =
      if is_pointer_ty ir t
      then (do
        write (codes "POINT ")
        pointer ← lift (dyn_cast_pointer ir t)
        pointed ← lift (element_type ir pointer)
        shown ← lift (get_type_str ir pointed)
        pure tt)
      else (do shown ← lift (get_type_str ir t); pure tt)

  unfoldable pub point_operands : List Value → Run (Unit {0})
  point_operands [] = pure tt
  point_operands (o ∷ os) = do point_type (type_of o); point_operands os

  unfoldable pub print_inst_arg_type : Value → Run (Unit {0})
  print_inst_arg_type i = do
    write (codes "\nInstruction: " ++ (print_value i ++ codes "\n"))
    point_type (type_of i)
    point_operands (operands i)

  -- The intrinsic of a call, by the first of its classes.
  unfoldable pub intrinsic_text : Value → Text
  intrinsic_text i =
      if isa_more constrained_fp_intrinsic i
      then codes "constrainedFPIntrinsic\n"
      else if isa dbg_info_intrinsic i
      then codes "DbgInfo\n"
      else if isa va_copy_inst i
      then codes "va_copy\n"
      else if isa va_end_inst i
      then codes "va_end\n"
      else if isa va_start_inst i
      then codes "va_start\n"
      else if isa mem_set_inst i
      then codes "memset\n"
      else if isa mem_cpy_inst i
      then codes "memcpy\n"
      else if isa mem_move_inst i
      then codes "memmove\n"
      else if isa_more atomic_mem_cpy_inst i
      then codes "automic_memcpy\n"
      else if isa_more atomic_mem_move_inst i
      then codes "automic_memmove\n"
      else if isa_more any_mem_cpy_inst i
      then codes "any_memcpy\n"
      else if isa_more any_mem_move_inst i
      then codes "any_memmove\n"
      else codes "Untracked IntrinsicInst\n"

  unfoldable pub dump_inline_asm : Value → Run (Unit {0})
  dump_inline_asm ia = do
    write (codes "\ninline asm: " ++ (print_value ia ++ codes "\n"))
    write (codes "asm string: ")
    write (escaped (asm_string ia))
    write (codes "\nconstraint string: " ++ (constraint_string ia ++ codes "\n"))
    write (codes "hasSideEffects: " ++ (bool_text (has_side_effects ia) ++ codes "\n"))
    write (codes "isAlignStack: " ++ (bool_text (is_align_stack ia) ++ codes "\n"))
    write (codes "dialect: " ++ ((if is_att ia then codes "att" else codes "intel") ++ codes "\n"))
    write (codes "Type: " ++ type_address ia)
    write (codes "\n")
    write (codes "split asm string...\n")

  -- `dyn_cast<InlineAsm>` of a null pointer is a fault, so the later test for null is always true.
  unfoldable pub dump_call_inst : Value → Run (Unit {0})
  dump_call_inst i = do
    callee ← lift (deref (called_function i))
    if isa inline_asm callee then dump_inline_asm callee else pure tt
    write (codes "callee: " ++ (name callee ++ codes "\t"))
    if isa intrinsic_inst i then write (intrinsic_text i) else write (codes "\n")

  unfoldable pub dump_preds : Value → List Value → Run (Unit {0})
  dump_preds phi [] = pure tt
  dump_preds phi (b ∷ bs) = do
    write (codes "\tindex of " ++ (name b ++ (codes " is " ++ (index_text phi b ++ codes "\n"))))
    dump_preds phi bs

  unfoldable pub dump_phi_node : Value → Run (Unit {0})
  dump_phi_node phi = do
    shown ← lift (get_value_str ir phi)
    write (shown ++ (codes " incoming: " ++ (decimal (num_incoming phi) ++ codes "\n")))
    block ← lift (deref (parent phi))
    dump_preds phi (preds block)

  unfoldable pub dump_indices : List Value → Run (Unit {0})
  dump_indices [] = write (codes "\n")
  dump_indices (v ∷ vs) = do write (codes "[" ++ (print_value v ++ codes "] ")); dump_indices vs

  -- The branch for `getelementptr`.
  unfoldable pub dump_gep : Value → Run (Unit {0})
  dump_gep gep = do
    shown ← lift (get_value_str ir gep)
    write (shown ++ (codes " type: " ++ (print_type (type_of gep) ++ codes "\n")))
    pointer ← lift (get_operand ir gep 0)
    write (codes "  pointer operand: " ++ (print_value pointer ++ codes "\n"))
    write (codes "  Indices: ")
    dump_indices (drop 1 (operands gep))

  unfoldable pub dump_alloca : Value → Run (Unit {0})
  dump_alloca i =
      let t = allocated_type i in
      write (
        codes "AllocaInst type: "
        ++ (print_type t ++ (codes " allocSize=" ++ (decimal (size_in_bits t) ++ codes " bits\n"))))

  -- The loop's body.
  unfoldable pub dump_inst : Value → Run (Unit {0})
  dump_inst i = do
    write (codes "INST: " ++ (print_value i ++ codes "\n"))
    if isa alloca_inst i
        then dump_alloca i
        else (if isa get_element_ptr_inst i
            then dump_gep i
            else (if isa phi_node i
                then dump_phi_node i
                else (if isa call_inst i then dump_call_inst i else pure tt)))

  unfoldable pub dump_insts : List Value → Run (Unit {0})
  dump_insts [] = pure tt
  dump_insts (i ∷ is) = do dump_inst i; dump_insts is

  unfoldable pub dump_basic_block : Value → Run (Unit {0})
  dump_basic_block b = do
    with_color cyan (do
      f ← lift (deref (parent b))
      write (codes "---> BB (in " ++ (name f ++ (codes "): " ++ (pp_name (name b) ++ codes "\n")))))
    dump_insts (insts b)
