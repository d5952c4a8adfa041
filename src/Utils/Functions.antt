-- ===== src/Utils/Functions.antt =====
-- lib/mybase/LLUtils.cc, `isFn_malloc` to `callToVoidFunction`: queries about functions and calls.
pub mod MemOps
pub mod Callees
use mathlib.Core.Logic.{ite}
use snippets_llvm.Base.{
  Bool, true, false, not, ◌&&◌, ◌||◌, Option, none, some, [], ◌∷◌, Text, codes, text_eq,
  if◌then◌else◌,
}
use snippets_llvm.Outcome.{Outcome, ok, check, deref, front, ◌>>=◌, ◌>>◌}
use snippets_llvm.Llvm.{Ir, element_type, dyn_cast_pointer, is_function_ty}
use snippets_llvm.Llvm.Classes.{function, inline_asm, instruction}
use snippets_llvm.Llvm.Ids.{IntrinsicId, memcpy, memmove, memset, is_void_id}

-- `Value::hasName`
abbrev pub has_name : Text → Bool
has_name [] = false
has_name (c ∷ s) = true

abbrev is_memcpy_id : IntrinsicId → Bool
is_memcpy_id memcpy = true
is_memcpy_id _ = false

abbrev is_memmove_id : IntrinsicId → Bool
is_memmove_id memmove = true
is_memmove_id _ = false

abbrev is_memset_id : IntrinsicId → Bool
is_memset_id memset = true
is_memset_id _ = false

module _ (ir : Ir) where
  open ir use {
    Value, Ty, value_eq, isa, type_id, type_of, name, is_declaration, intrinsic_id, function_type,
    blocks, insts, parent, called_function, is_inline_asm, has_side_effects,
  }

  unfoldable pub is_fn_malloc : Value → Bool
  is_fn_malloc f = is_declaration f && (has_name (name f) && text_eq (name f) (codes "malloc"))

  unfoldable pub is_fn_free : Value → Bool
  is_fn_free f = is_declaration f && (has_name (name f) && text_eq (name f) (codes "free"))

  unfoldable pub is_fn_memcpy : Value → Bool
  is_fn_memcpy f = is_memcpy_id (intrinsic_id f)

  unfoldable pub is_fn_memmove : Value → Bool
  is_fn_memmove f = is_memmove_id (intrinsic_id f)

  unfoldable pub is_fn_memset : Value → Bool
  is_fn_memset f = is_memset_id (intrinsic_id f)

  -- The argument may be null.
  unfoldable pub is_fn_mem_ops : Option Value → Bool
  is_fn_mem_ops none = false
  is_fn_mem_ops (some f) =
      is_fn_malloc f || (is_fn_free f || (is_fn_memcpy f || (is_fn_memmove f || is_fn_memset f)))

  unfoldable pub is_inst_mem_ops : Value → Bool
  is_inst_mem_ops c = is_fn_mem_ops (called_function c)

  -- `dyn_cast<InlineAsm>` of a null pointer is a fault.
  unfoldable pub is_inline_asm_with_side_effect : Value → Outcome Bool
  is_inline_asm_with_side_effect c = do
    called ← deref (called_function c)
    ok (if isa inline_asm called then has_side_effects called else false)

  -- `nullptr` where the pointer of the called value points to no function type
  unfoldable pub get_callee_fn_type : Value → Outcome (Option Ty)
  get_callee_fn_type c = do
    check (not (is_inline_asm c))
    called ← deref (called_function c)
    if isa function called then ok (some (function_type called)) else do
      pointer ← dyn_cast_pointer ir (type_of called)
      fn_t ← element_type ir pointer
      ok (if is_function_ty ir fn_t then some fn_t else none)

  -- `getFn_exit`, which does not look at the module: null
  abbrev pub get_fn_exit : Option Value
  get_fn_exit = none

  -- `&F->getEntryBlock().front()`
  unfoldable pub get_function_entry : Value → Outcome Value
  get_function_entry f = do entry ← front (blocks f); front (insts entry)

  -- Whether the parent of a block is the function.
  abbrev is_parent : Value → Option Value → Bool
  is_parent f none = false
  is_parent f (some g) = ite (value_eq g f) true false

  unfoldable pub is_local_to_function : Value → Value → Outcome Bool
  is_local_to_function v f =
      if isa instruction v
      then (do block ← deref (parent v); ok (is_parent f (parent block)))
      else ok false

  unfoldable pub call_to_void_function : Value → Bool
  call_to_void_function c = if is_inline_asm c then false else is_void_id (type_id (type_of c))
