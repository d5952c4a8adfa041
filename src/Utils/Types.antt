-- ===== src/Utils/Types.antt =====
-- lib/mybase/LLUtils.cc, `isIntegerRelatedType` and `detail::getTypeSize`.
pub mod IntegerRelated
use mathlib.Core.List.{Memᴰ}
use snippets_llvm.Base.{
  ℕ, zero, suc, ◌<◌, Bool, true, false, Option, none, some, List, [], ◌∷◌, ◌≡◌, if◌then◌else◌,
}
use snippets_llvm.Outcome.{Outcome, ok, fault, ◌>>=◌}
use snippets_llvm.Llvm.{
  Ir, is_pointer_ty, is_struct_ty, is_array_ty, is_integer_ty, is_function_ty, element_type,
}

module _ (ir : Ir) where
  open ir use {Ty, is_sized, elements, element, nesting}

  -- The loop over the elements of a struct: the first that is not related ends it.
  pub all_related : (Ty → Option (Outcome Bool)) → List Ty → Option (Outcome Bool)
  all_related related [] = some (ok true)
  all_related related (e ∷ es) =
      let rest = all_related related es in
      elim (related e) [
        | none ↦ none
        | some (fault x) ↦ some (fault x)
        | some (ok true) ↦ rest
        | some (ok false) ↦ some (ok false)
      ]

  -- `isa<IntegerType>` of what a pointer points to; pointers are not followed further.
  pub points_to_integer : Ty → Outcome Bool
  unfolding element_type
  points_to_integer t = do pointed ← element_type ir t; ok (is_integer_ty ir pointed)

  -- The recursion; `none` means that the fuel ran out.
  pub integer_related_in : ℕ → Ty → Option (Outcome Bool)
  integer_related_in zero t = none
  integer_related_in (suc fuel) t =
      let members = all_related (integer_related_in fuel) (elements t) in
      let item = integer_related_in fuel (element t) in
      if is_pointer_ty ir t
      then some (points_to_integer t)
      else if is_struct_ty ir t
      then members
      else if is_array_ty ir t
      then item
      else some (ok (is_integer_ty ir t))

  -- Each call looks at a type that is nested less deep.
  unfoldable pub is_integer_related_type : Ty → Option (Outcome Bool)
  unfolding integer_related_in all_related points_to_integer
  is_integer_related_type t = integer_related_in (suc (nesting t)) t

  -- `getTypeSize`, over what it asks of the `DataLayout`.
  pub get_type_size : ℕ → (Ty → ℕ) → (Ty → ℕ) → Ty → ℕ
  get_type_size pointer_size struct_size alloc_size t =
      if is_function_ty ir t
      then pointer_size
      else if is_sized t
      then (if is_struct_ty ir t then struct_size t else alloc_size t)
      else 100
