-- ===== src/Llvm/Ids.antt =====
-- The enumerations of LLVM that the repository switches over. A value that no `case` names is
-- `other`, with its number.
use snippets_llvm.Base.{ℕ, Bool, true, false}

-- `Type::TypeID`
pub data TypeId : Type 0 where
  void_ty_id float_ty_id double_ty_id x86_fp80_ty_id fp128_ty_id ppc_fp128_ty_id : TypeId
  label_ty_id metadata_ty_id x86_mmx_ty_id integer_ty_id function_ty_id struct_ty_id : TypeId
  array_ty_id pointer_ty_id half_ty_id : TypeId
  other_ty_id : ℕ → TypeId

-- `Value::ValueTy`; an instruction has `InstructionVal` plus its opcode.
pub data ValueId : Type 0 where
  argument_val basic_block_val function_val global_alias_val global_variable_val : ValueId
  undef_value_val block_address_val constant_expr_val constant_aggregate_zero_val : ValueId
  constant_data_array_val constant_data_vector_val constant_int_val constant_fp_val : ValueId
  constant_array_val constant_struct_val constant_vector_val constant_pointer_null_val : ValueId
  inline_asm_val : ValueId
  instruction_val : ℕ → ValueId
  other_val : ℕ → ValueId

-- `Intrinsic::ID`, as far as it is compared
pub data IntrinsicId : Type 0 where
  memcpy memmove memset : IntrinsicId
  other_intrinsic : ℕ → IntrinsicId

-- `PassKind`
pub data PassKind : Type 0 where
  pt_region pt_loop pt_function pt_call_graph_scc pt_module pt_pass_manager : PassKind

-- `getTypeID() == id`, for the ids that the repository compares with
abbrev pub is_void_id : TypeId → Bool
is_void_id void_ty_id = true
is_void_id _ = false

abbrev pub is_integer_id : TypeId → Bool
is_integer_id integer_ty_id = true
is_integer_id _ = false

abbrev pub is_function_id : TypeId → Bool
is_function_id function_ty_id = true
is_function_id _ = false

abbrev pub is_struct_id : TypeId → Bool
is_struct_id struct_ty_id = true
is_struct_id _ = false

abbrev pub is_array_id : TypeId → Bool
is_array_id array_ty_id = true
is_array_id _ = false

abbrev pub is_pointer_id : TypeId → Bool
is_pointer_id pointer_ty_id = true
is_pointer_id _ = false
