-- ===== src/Utils/Manipulation.antt =====
-- lib/mybase/LLUtils.cc, `isPointerManipulation`.
pub mod Ends
pub mod Answers
use snippets_llvm.Base.{Bool, true, false, Text, codes, ◌++◌, if◌then◌else◌}
use snippets_llvm.Outcome.{fatal_error}
use snippets_llvm.Errs.{Run, lift, pure, fail, write, with_color, red, ◌>>=◌, ◌>>◌}
use snippets_llvm.Llvm.{Ir, is_pointer_ty, element_type, dyn_cast_pointer, get_operand}
use snippets_llvm.Llvm.Classes.{
  alloca_inst, load_inst, store_inst, bit_cast_inst, get_element_ptr_inst, call_inst, phi_node,
  extract_value_inst, insert_value_inst, int_to_ptr_inst, select_inst,
}
use snippets_llvm.Utils.Functions.{is_fn_mem_ops}
use snippets_llvm.Utils.Pointers.{is_pointer_value}

abbrev pub not_a_pointer : Text
not_a_pointer = codes "Instruction can't be a Pointer Value"

module _ (ir : Ir) where
  open ir use {Value, isa, type_of, print_value, called_function, is_inline_asm}

  -- `dyn_cast<PointerType>(I->getOperand(0)->getType())->…->isPointerTy()`
  unfoldable pub loads_pointer : Value → Run Bool
  loads_pointer i = do
    source ← lift (get_operand ir i 0)
    pointer ← lift (dyn_cast_pointer ir (type_of source))
    pointed ← lift (element_type ir pointer)
    pure (is_pointer_ty ir pointed)

  unfoldable pub stores_pointer : Value → Run Bool
  stores_pointer i = do stored ← lift (get_operand ir i 0); pure (is_pointer_ty ir (type_of stored))

  -- `&&`: the operand is looked at only if the result is a pointer.
  unfoldable pub casts_pointer : Value → Run Bool
  casts_pointer i = if is_pointer_ty ir (type_of i) then stores_pointer i else pure false

  unfoldable pub insert_pointer : Value → Run Bool
  insert_pointer i = do inserted ← lift (get_operand ir i 1); lift (is_pointer_value ir inserted)

  -- What follows the chain of tests.
  unfoldable pub reject_pointer : Value → Run Bool
  reject_pointer i = do
    pointer ← lift (is_pointer_value ir i)
    if pointer
        then (do
          with_color red (write (print_value i ++ codes "\n"))
          fail (fatal_error not_a_pointer))
        else pure false

  -- `if (…) return true;` at the end of a branch: otherwise control reaches the end of the chain.
  unfoldable pub or_reject : Value → Run Bool → Run Bool
  or_reject i test = do holds ← test; if holds then pure true else reject_pointer i

  unfoldable pub is_pointer_manipulation : Value → Run Bool
  is_pointer_manipulation i =
      if isa alloca_inst i
      then pure false
      else if isa load_inst i
      then or_reject i (loads_pointer i)
      else if isa store_inst i
      then or_reject i (stores_pointer i)
      else if isa bit_cast_inst i
      then or_reject i (casts_pointer i)
      else if isa get_element_ptr_inst i
      then pure true
      else if isa call_inst i
      then (if is_inline_asm i then pure false else pure (is_fn_mem_ops ir (called_function i)))
      else if isa phi_node i
      then lift (is_pointer_value ir i)
      else if isa extract_value_inst i
      then lift (is_pointer_value ir i)
      else if isa insert_value_inst i
      then insert_pointer i
      else if isa int_to_ptr_inst i
      then pure true
      else if isa select_inst i
      then or_reject i (lift (is_pointer_value ir i))
      else reject_pointer i
