-- ===== src/Dump/Names/RoundTrip.antt =====
-- The names that `getValueStr` and `getTypeStr` give tell the kinds apart.
use mathlib.Core.Option.{some-injective}
use snippets_llvm.Base.{
  true, false, Text, text_eq, Option, none, some, List, [], ◌∷◌, ◌≡◌, ◌≢◌, refl, sym, ap, ◌∙◌,
  arith,
}
use snippets_llvm.Outcome.{ok}
use snippets_llvm.Llvm.{Ir}
use snippets_llvm.Llvm.Ids.{
  TypeId, ValueId, void_ty_id, float_ty_id, double_ty_id, x86_fp80_ty_id, fp128_ty_id,
  ppc_fp128_ty_id, label_ty_id, metadata_ty_id, x86_mmx_ty_id, integer_ty_id, function_ty_id,
  struct_ty_id, array_ty_id, pointer_ty_id, half_ty_id, argument_val, basic_block_val, function_val,
  global_alias_val, global_variable_val, undef_value_val, block_address_val, constant_expr_val,
  constant_aggregate_zero_val, constant_data_array_val, constant_data_vector_val, constant_int_val,
  constant_fp_val, constant_array_val, constant_struct_val, constant_vector_val,
  constant_pointer_null_val, inline_asm_val, instruction_val, other_val, other_ty_id,
}
use snippets_llvm.Dump.Names.{value_case, type_case, get_value_str, get_type_str}

-- The first of some kinds that has the name.
abbrev named : {A : Type 0} → (A → Option Text) → List A → Text → Option A
named name [] t = none
named name (a ∷ rest) t = elim (name a) [
  | none ↦ named name rest t
  | some s ↦ elim (text_eq s t) [ true ↦ some a | false ↦ named name rest t ]
]

abbrev named_values : List ValueId
named_values =
    argument_val ∷ basic_block_val ∷ function_val ∷ global_alias_val ∷ global_variable_val
    ∷ undef_value_val ∷ block_address_val ∷ constant_expr_val ∷ constant_aggregate_zero_val
    ∷ constant_data_array_val ∷ constant_data_vector_val ∷ constant_int_val ∷ constant_fp_val
    ∷ constant_array_val ∷ constant_struct_val ∷ constant_vector_val ∷ constant_pointer_null_val
    ∷ inline_asm_val ∷ []

abbrev named_types : List TypeId
named_types =
    void_ty_id ∷ float_ty_id ∷ double_ty_id ∷ x86_fp80_ty_id ∷ fp128_ty_id ∷ ppc_fp128_ty_id
    ∷ label_ty_id ∷ metadata_ty_id ∷ x86_mmx_ty_id ∷ integer_ty_id ∷ function_ty_id ∷ struct_ty_id
    ∷ array_ty_id ∷ pointer_ty_id ∷ half_ty_id ∷ []

-- The kind with the name, if there is a name.
abbrev value_named : Option Text → Option ValueId
value_named none = none
value_named (some t) = named value_case named_values t

abbrev type_named : Option Text → Option TypeId
type_named none = none
type_named (some t) = named type_case named_types t

value_named-value_case : (a : ValueId) → value_case a ≢ none → value_named (value_case a) ≡ some a
unfolding value_case text_eq
value_named-value_case (instruction_val n) h = absurd (h refl)
value_named-value_case (other_val n) h = absurd (h refl)
value_named-value_case _ h = refl

type_named-type_case : (a : TypeId) → type_case a ≢ none → type_named (type_case a) ≡ some a
unfolding type_case text_eq
type_named-type_case (other_ty_id n) h = absurd (h refl)
type_named-type_case _ h = refl

value_case-injective : (a b : ValueId) → value_case a ≢ none → value_case a ≡ value_case b → a ≡ b
value_case-injective a b h e = some-injective a b (
    sym (value_named-value_case a h) ∙ ap value_named e ∙ value_named-value_case b (λ n. h (e ∙ n)))

type_case-injective : (a b : TypeId) → type_case a ≢ none → type_case a ≡ type_case b → a ≡ b
type_case-injective a b h e =
    some-injective a b
      (sym (type_named-type_case a h) ∙ ap type_named e ∙ type_named-type_case b (λ n. h (e ∙ n)))

module _ (ir : Ir) where
  open ir use {Value, Ty, value_id, type_id}

  value_case_of_get :
      (v : Value) (t : Text) → get_value_str ir v ≡ ok t → value_case (value_id v) ≡ some t
  unfolding get_value_str
  value_case_of_get v t h = ground arith

  type_case_of_get : (v : Ty) (t : Text) → get_type_str ir v ≡ ok t → type_case (type_id v) ≡ some t
  unfolding get_type_str
  type_case_of_get v t h = ground arith

  -- Two values that `getValueStr` gives the same name have the same value id.
  pub get_value_str-separates :
      (v w : Value) (t : Text)
      → get_value_str ir v ≡ ok t
      → get_value_str ir w ≡ ok t
      → value_id v ≡ value_id w
  get_value_str-separates v w t hv hw =
      value_case-injective (value_id v) (value_id w) (λ n. cc (value_case_of_get v t hv, n))
        (value_case_of_get v t hv ∙ sym (value_case_of_get w t hw))

  -- Two types that `getTypeStr` gives the same name have the same type id.
  get_type_str-separates :
      (s t : Ty) (name : Text)
      → get_type_str ir s ≡ ok name
      → get_type_str ir t ≡ ok name
      → type_id s ≡ type_id t
  get_type_str-separates s t name hs ht =
      type_case-injective (type_id s) (type_id t) (λ n. cc (type_case_of_get s name hs, n))
        (type_case_of_get s name hs ∙ sym (type_case_of_get t name ht))
