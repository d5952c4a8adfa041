-- ===== src/Llvm/Classes.antt =====
-- The classes of LLVM that the repository asks `isa`, `cast` and `dyn_cast` about, with the base
-- class that LLVM's documentation gives each (the nearest one that stands in this list).
use snippets_llvm.Base.{Option, none, some}

pub data Class : Type 0 where
  argument basic_block inline_asm constant instruction : Class
  global_value undef_value constant_expr constant_int constant_fp constant_array : Class
  constant_struct constant_data_array constant_pointer_null constant_token_none : Class
  function global_alias global_variable global_i_func : Class
  binary_operator call_inst cmp_inst extract_element_inst get_element_ptr_inst : Class
  insert_value_inst phi_node select_inst shuffle_vector_inst store_inst : Class
  branch_inst indirect_br_inst invoke_inst return_inst switch_inst unreachable_inst : Class
  unary_instruction : Class
  alloca_inst cast_inst extract_value_inst load_inst va_arg_inst : Class
  bit_cast_inst fp_ext_inst fp_to_si_inst fp_to_ui_inst fp_trunc_inst int_to_ptr_inst : Class
  ptr_to_int_inst s_ext_inst si_to_fp_inst trunc_inst ui_to_fp_inst z_ext_inst : Class
  icmp_inst fcmp_inst : Class
  intrinsic_inst : Class
  dbg_info_intrinsic mem_intrinsic va_copy_inst va_end_inst va_start_inst : Class
  dbg_value_inst dbg_declare_inst : Class
  mem_set_inst mem_transfer_inst : Class
  mem_cpy_inst mem_move_inst : Class

-- The base class; these form a tree, as every class here has one base.
abbrev pub base : Class → Option Class
base global_value = some constant
base undef_value = some constant
base constant_expr = some constant
base constant_int = some constant
base constant_fp = some constant
base constant_array = some constant
base constant_struct = some constant
base constant_data_array = some constant
base constant_pointer_null = some constant
base constant_token_none = some constant
base function = some global_value
base global_alias = some global_value
base global_variable = some global_value
base global_i_func = some global_value
base binary_operator = some instruction
base call_inst = some instruction
base cmp_inst = some instruction
base extract_element_inst = some instruction
base get_element_ptr_inst = some instruction
base insert_value_inst = some instruction
base phi_node = some instruction
base select_inst = some instruction
base shuffle_vector_inst = some instruction
base store_inst = some instruction
base branch_inst = some instruction
base indirect_br_inst = some instruction
base invoke_inst = some instruction
base return_inst = some instruction
base switch_inst = some instruction
base unreachable_inst = some instruction
base unary_instruction = some instruction
base alloca_inst = some unary_instruction
base cast_inst = some unary_instruction
base extract_value_inst = some unary_instruction
base load_inst = some unary_instruction
base va_arg_inst = some unary_instruction
base bit_cast_inst = some cast_inst
base fp_ext_inst = some cast_inst
base fp_to_si_inst = some cast_inst
base fp_to_ui_inst = some cast_inst
base fp_trunc_inst = some cast_inst
base int_to_ptr_inst = some cast_inst
base ptr_to_int_inst = some cast_inst
base s_ext_inst = some cast_inst
base si_to_fp_inst = some cast_inst
base trunc_inst = some cast_inst
base ui_to_fp_inst = some cast_inst
base z_ext_inst = some cast_inst
base icmp_inst = some cmp_inst
base fcmp_inst = some cmp_inst
base intrinsic_inst = some call_inst
base dbg_info_intrinsic = some intrinsic_inst
base mem_intrinsic = some intrinsic_inst
base va_copy_inst = some intrinsic_inst
base va_end_inst = some intrinsic_inst
base va_start_inst = some intrinsic_inst
base dbg_value_inst = some dbg_info_intrinsic
base dbg_declare_inst = some dbg_info_intrinsic
base mem_set_inst = some mem_intrinsic
base mem_transfer_inst = some mem_intrinsic
base mem_cpy_inst = some mem_transfer_inst
base mem_move_inst = some mem_transfer_inst
base _ = none
