-- ===== src/Utils/Pointers.antt =====
-- lib/mybase/LLUtils.cc, `isTrivialPointer` to `isPointerToPointerValue`, `getPointedType` and
-- `isGlobalPointerInit`: queries about pointers.
pub mod Levels
use snippets_llvm.Base.{Bool, true, false, not, ◌&&◌, ◌||◌, if◌then◌else◌}
use snippets_llvm.Outcome.{Outcome, ok, check, ◌>>=◌, ◌>>◌}
use snippets_llvm.Llvm.{Ir, is_pointer_ty, element_type, cast_pointer, get_operand, is_function_ty}
use snippets_llvm.Llvm.Classes.{
  alloca_inst, global_variable, function, constant, global_value, undef_value,
}

module _ (ir : Ir) where
  open ir use {Value, Ty, isa, type_of, is_declaration}

  unfoldable pub is_trivial_pointer : Value → Outcome Bool
  is_trivial_pointer v =
      if isa alloca_inst v || (isa global_variable v || isa function v)
      then (do check (is_pointer_ty ir (type_of v)); ok true)
      else ok false

  unfoldable pub is_constant_value : Value → Bool
  is_constant_value v = isa constant v && (not (isa global_value v) && not (isa undef_value v))

  -- `getPointedType` of a type
  unfoldable pub get_pointed_type : Ty → Outcome Ty
  get_pointed_type t = do pointer ← cast_pointer ir t; element_type ir pointer

  unfoldable pub is_pointer_value : Value → Outcome Bool
  is_pointer_value v = do
    trivial ← is_trivial_pointer v
    if trivial
        then (do
          pointer ← cast_pointer ir (type_of v)
          pointed ← element_type ir pointer
          ok (is_pointer_ty ir pointed))
        else ok (is_pointer_ty ir (type_of v))

  -- `getPointedType` of a value
  unfoldable pub get_value_pointed_type : Value → Outcome Ty
  get_value_pointed_type v = do
    ty ← get_pointed_type (type_of v)
    trivial ← is_trivial_pointer v
    if trivial then get_pointed_type ty else ok ty

  unfoldable pub is_pointer_to_pointer_value : Value → Outcome Bool
  is_pointer_to_pointer_value v = do
    pointer ← is_pointer_value v
    if pointer
        then (do pointed ← get_value_pointed_type v; ok (is_pointer_ty ir pointed))
        else ok false

  -- The assertion behind `isa<Function>(G)`.
  unfoldable pub check_function_init : Value → Value → Outcome (Unit {0})
  check_function_init g op =
      if isa function g
      then (do
        pointer ← cast_pointer ir (type_of op)
        pointed ← element_type ir pointer
        check (is_function_ty ir pointed))
      else ok tt

  unfoldable pub is_global_pointer_init : Value → Outcome Bool
  is_global_pointer_init g =
      if is_declaration g
      then ok false
      else (do op ← get_operand ir g 0; check_function_init g op; is_trivial_pointer op)
