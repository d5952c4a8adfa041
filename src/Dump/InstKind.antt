-- ===== src/Dump/InstKind.antt =====
-- lib/mybase/LLDump.cc, `printInstKind`: the chain of classes that an instruction belongs to.
pub mod Ends
pub mod Labels
use snippets_llvm.Base.{Bool, true, false, List, [], ◌∷◌, ◌++◌, Text, codes, if◌then◌else◌}
use snippets_llvm.Errs.{Run, lift, pure, write, ◌>>=◌, ◌>>◌}
use snippets_llvm.Llvm.{Ir}
use snippets_llvm.Llvm.Classes.{
  Class, binary_operator, call_inst, intrinsic_inst, dbg_info_intrinsic, dbg_value_inst,
  dbg_declare_inst, mem_intrinsic, mem_set_inst, mem_transfer_inst, mem_cpy_inst, va_copy_inst,
  va_end_inst, va_start_inst, cmp_inst, icmp_inst, fcmp_inst, extract_element_inst,
  get_element_ptr_inst, insert_value_inst, phi_node, select_inst, shuffle_vector_inst, store_inst,
  branch_inst, indirect_br_inst, invoke_inst, return_inst, switch_inst, unreachable_inst,
  unary_instruction, alloca_inst, cast_inst, bit_cast_inst, fp_ext_inst, fp_to_si_inst,
  fp_to_ui_inst, fp_trunc_inst, int_to_ptr_inst, ptr_to_int_inst, s_ext_inst, si_to_fp_inst,
  trunc_inst, ui_to_fp_inst, z_ext_inst, extract_value_inst, load_inst, va_arg_inst,
}
use snippets_llvm.Dump.InstType.{inst_type_str}
use snippets_llvm.Dump.Printing.{rbscope_diagnostics, fatal}

-- The class as the argument of a test spells it.
unfoldable pub class_text : Class → Text
class_text binary_operator = codes "BinaryOperator"
class_text call_inst = codes "CallInst"
class_text intrinsic_inst = codes "IntrinsicInst"
class_text dbg_info_intrinsic = codes "DbgInfoIntrinsic"
class_text dbg_value_inst = codes "DbgValueInst"
class_text dbg_declare_inst = codes "DbgDeclareInst"
class_text mem_intrinsic = codes "MemIntrinsic"
class_text mem_set_inst = codes "MemSetInst"
class_text mem_transfer_inst = codes "MemTransferInst"
class_text mem_cpy_inst = codes "MemCpyInst"
class_text va_copy_inst = codes "VACopyInst"
class_text va_end_inst = codes "VAEndInst"
class_text va_start_inst = codes "VAStartInst"
class_text cmp_inst = codes "CmpInst"
class_text icmp_inst = codes "ICmpInst"
class_text fcmp_inst = codes "FCmpInst"
class_text extract_element_inst = codes "ExtractElementInst"
class_text get_element_ptr_inst = codes "GetElementPtrInst"
class_text insert_value_inst = codes "InsertValueInst"
class_text phi_node = codes "PHINode"
class_text select_inst = codes "SelectInst"
class_text shuffle_vector_inst = codes "ShuffleVectorInst"
class_text store_inst = codes "StoreInst"
class_text branch_inst = codes "BranchInst"
class_text indirect_br_inst = codes "IndirectBrInst"
class_text invoke_inst = codes "InvokeInst"
class_text return_inst = codes "ReturnInst"
class_text switch_inst = codes "SwitchInst"
class_text unreachable_inst = codes "UnreachableInst"
class_text unary_instruction = codes "UnaryInstruction"
class_text alloca_inst = codes "AllocaInst const"
class_text cast_inst = codes "CastInst"
class_text bit_cast_inst = codes "BitCastInst"
class_text fp_ext_inst = codes "FPExtInst"
class_text fp_to_si_inst = codes "FPToSIInst"
class_text fp_to_ui_inst = codes "FPToUIInst"
class_text fp_trunc_inst = codes "FPTruncInst"
class_text int_to_ptr_inst = codes "IntToPtrInst"
class_text ptr_to_int_inst = codes "PtrToIntInst"
class_text s_ext_inst = codes "SExtInst"
class_text si_to_fp_inst = codes "SIToFPInst"
class_text trunc_inst = codes "TruncInst"
class_text ui_to_fp_inst = codes "UIToFPInst"
class_text z_ext_inst = codes "ZExtInst"
class_text extract_value_inst = codes "ExtractValueInst"
class_text load_inst = codes "LoadInst"
class_text va_arg_inst = codes "VAArgInst"
class_text _ = []

-- `#Key` of `INST_KIND_DUMP(err, stop, isa<Name>(I))`
abbrev pub key : Class → Text
key c = codes "isa<" ++ (class_text c ++ codes ">(I)")

-- The argument `stop` of the macro.
abbrev pub stop : Bool
stop = true

abbrev pub go_on : Bool
go_on = false

abbrev pub Tests : Type 0
Tests = List (Bool × Class)

abbrev pub first_kinds : Tests
first_kinds = (stop, binary_operator) ∷ (go_on, call_inst) ∷ []

abbrev pub call_kinds : Tests
call_kinds =
    (go_on, intrinsic_inst)
    ∷ (go_on, dbg_info_intrinsic)
    ∷ (stop, dbg_value_inst)
    ∷ (stop, dbg_declare_inst)
    ∷ (go_on, mem_intrinsic)
    ∷ (go_on, mem_set_inst)
    ∷ (stop, mem_transfer_inst)
    ∷ (stop, mem_cpy_inst)
    ∷ (stop, va_copy_inst)
    ∷ (stop, va_end_inst)
    ∷ (stop, va_start_inst)
    ∷ []

abbrev pub other_kinds : Tests
other_kinds =
    (go_on, cmp_inst)
    ∷ (stop, icmp_inst)
    ∷ (stop, fcmp_inst)
    ∷ (stop, extract_element_inst)
    ∷ (stop, get_element_ptr_inst)
    ∷ (stop, insert_value_inst)
    ∷ (stop, phi_node)
    ∷ (stop, select_inst)
    ∷ (stop, shuffle_vector_inst)
    ∷ (stop, store_inst)
    ∷ (stop, branch_inst)
    ∷ (stop, indirect_br_inst)
    ∷ (stop, invoke_inst)
    ∷ (stop, return_inst)
    ∷ (stop, switch_inst)
    ∷ (stop, unreachable_inst)
    ∷ (go_on, unary_instruction)
    ∷ (stop, alloca_inst)
    ∷ (stop, cast_inst)
    ∷ (stop, bit_cast_inst)
    ∷ (stop, fp_ext_inst)
    ∷ (stop, fp_to_si_inst)
    ∷ (stop, fp_to_ui_inst)
    ∷ (stop, fp_trunc_inst)
    ∷ (stop, int_to_ptr_inst)
    ∷ (stop, ptr_to_int_inst)
    ∷ (stop, s_ext_inst)
    ∷ (stop, si_to_fp_inst)
    ∷ (stop, trunc_inst)
    ∷ (stop, ui_to_fp_inst)
    ∷ (stop, z_ext_inst)
    ∷ (stop, extract_value_inst)
    ∷ (stop, load_inst)
    ∷ (stop, va_arg_inst)
    ∷ []

module _ (ir : Ir) where
  open ir use {Value, isa, print_value, is_inline_asm}

  -- One use of the macro; the answer is whether it left the loop by `break`.
  unfoldable pub inst_kind_dump : Bool → Class → Value → Run Bool
  inst_kind_dump stops c i =
      if isa c i
      then (do
        label ← lift (inst_type_str (key c))
        write label
        if stops then (write (codes "\n") >> pure true) else (write (codes " <-- ") >> pure false))
      else pure false

  -- Uses of the macro in a row.
  unfoldable pub dump_kinds : Tests → Value → Run Bool
  unfolding inst_kind_dump
  dump_kinds [] i = pure false
  dump_kinds ((stops, c) ∷ tests) i = do
    left ← inst_kind_dump stops c i
    elim left [ true ↦ pure true | false ↦ dump_kinds tests i ]

  -- The branch for calls, which always leaves the loop.
  unfoldable pub print_call_kind : Value → Run (Unit {0})
  print_call_kind i = if is_inline_asm i then write (codes "InlineAsm\n") else (do
    left ← dump_kinds call_kinds i
    if left then pure tt else write (codes "[Simple CallInst]\n"))

  unfoldable pub print_other_kind : Value → Run (Unit {0})
  print_other_kind i = do
    left ← dump_kinds other_kinds i
    if left then pure tt else rbscope_diagnostics fatal (codes "unknown Instruction Type\n")

  -- The loop makes one round: whatever does not leave it aborts the program.
  unfoldable pub print_inst_kind : Value → Run (Unit {0})
  print_inst_kind i = do
    write (codes "\n" ++ (print_value i ++ codes "\n"))
    left ← dump_kinds first_kinds i
    if left then pure tt else (if isa call_inst i then print_call_kind i else print_other_kind i)
