-- ===== src/Dump/Names.antt =====
-- lib/mybase/LLDump.cc, `getValueStr` and `getTypeStr`: the names of values' and types' kinds.
pub mod RoundTrip
use snippets_llvm.Base.{Text, codes, ◌++◌, Option, none, some}
use snippets_llvm.Outcome.{Outcome, ok, fault, fatal_error}
use snippets_llvm.Llvm.{Ir}
use snippets_llvm.Llvm.Ids.{
  TypeId, ValueId, void_ty_id, float_ty_id, double_ty_id, x86_fp80_ty_id, fp128_ty_id,
  ppc_fp128_ty_id, label_ty_id, metadata_ty_id, x86_mmx_ty_id, integer_ty_id, function_ty_id,
  struct_ty_id, array_ty_id, pointer_ty_id, half_ty_id, argument_val, basic_block_val, function_val,
  global_alias_val, global_variable_val, undef_value_val, block_address_val, constant_expr_val,
  constant_aggregate_zero_val, constant_data_array_val, constant_data_vector_val, constant_int_val,
  constant_fp_val, constant_array_val, constant_struct_val, constant_vector_val,
  constant_pointer_null_val, inline_asm_val,
}

-- The `case` lines of the two switches; `none` is `default`.
unfoldable pub value_case : ValueId → Option Text
value_case argument_val = some (codes "Value::ArgumentVal")
value_case basic_block_val = some (codes "Value::BasicBlockVal")
value_case function_val = some (codes "Value::FunctionVal")
value_case global_alias_val = some (codes "Value::GlobalAliasVal")
value_case global_variable_val = some (codes "Value::GlobalVariableVal")
value_case undef_value_val = some (codes "Value::UndefValueVal")
value_case block_address_val = some (codes "Value::BlockAddressVal")
value_case constant_expr_val = some (codes "Value::ConstantExprVal")
value_case constant_aggregate_zero_val = some (codes "Value::ConstantAggregateZeroVal")
value_case constant_data_array_val = some (codes "Value::ConstantDataArrayVal")
value_case constant_data_vector_val = some (codes "Value::ConstantDataVectorVal")
value_case constant_int_val = some (codes "Value::ConstantIntVal")
value_case constant_fp_val = some (codes "Value::ConstantFPVal")
value_case constant_array_val = some (codes "Value::ConstantArrayVal")
value_case constant_struct_val = some (codes "Value::ConstantStructVal")
value_case constant_vector_val = some (codes "Value::ConstantVectorVal")
value_case constant_pointer_null_val = some (codes "Value::ConstantPointerNullVal")
value_case inline_asm_val = some (codes "Value::InlineAsmVal")
value_case _ = none

unfoldable pub type_case : TypeId → Option Text
type_case void_ty_id = some (codes "Type::VoidTyID")
type_case float_ty_id = some (codes "Type::FloatTyID")
type_case double_ty_id = some (codes "Type::DoubleTyID")
type_case x86_fp80_ty_id = some (codes "Type::X86_FP80TyID")
type_case fp128_ty_id = some (codes "Type::FP128TyID")
type_case ppc_fp128_ty_id = some (codes "Type::PPC_FP128TyID")
type_case label_ty_id = some (codes "Type::LabelTyID")
type_case metadata_ty_id = some (codes "Type::MetadataTyID")
type_case x86_mmx_ty_id = some (codes "Type::X86_MMXTyID")
type_case integer_ty_id = some (codes "Type::IntegerTyID")
type_case function_ty_id = some (codes "Type::FunctionTyID")
type_case struct_ty_id = some (codes "Type::StructTyID")
type_case array_ty_id = some (codes "Type::ArrayTyID")
type_case pointer_ty_id = some (codes "Type::PointerTyID")
type_case half_ty_id = some (codes "Type::HalfTyID")
type_case _ = none

abbrev or_fatal : Option Text → Text → Outcome Text
or_fatal none message = fault (fatal_error message)
or_fatal (some name) message = ok name

module _ (ir : Ir) where
  open ir use {Value, Ty, value_id, type_id, print_value, print_type}

  unfoldable pub get_value_str : Value → Outcome Text
  get_value_str v =
      or_fatal (value_case (value_id v)) (codes "unimplemented value for " ++ print_value v)

  unfoldable pub get_type_str : Ty → Outcome Text
  get_type_str t = or_fatal (type_case (type_id t)) (codes "Not handled type: " ++ print_type t)
