-- ===== src/Llvm/Sample.antt =====
-- A small module that meets the laws, for the tests: a function `main` of two blocks with a few
-- instructions, two declared functions, a global variable and two constant expressions.
pub mod Laws
use snippets_llvm.Base.{
  ℕ, suc, ◌+◌, ◌||◌, Bool, true, false, Option, none, some, List, [], ◌∷◌, Text, codes,
}
use snippets_llvm.Llvm.{Ir}
use snippets_llvm.Llvm.Classes.{
  Class, global_variable, function, basic_block, alloca_inst, load_inst, store_inst, bit_cast_inst,
  call_inst, va_arg_inst, mem_set_inst, return_inst, constant_expr,
}
use snippets_llvm.Llvm.Hierarchy.{is_above, depth, Class-discrete}
use snippets_llvm.Llvm.Ids.{
  TypeId, void_ty_id, integer_ty_id, float_ty_id, pointer_ty_id, function_ty_id, label_ty_id,
  array_ty_id, struct_ty_id, ValueId, global_variable_val, function_val, basic_block_val,
  constant_expr_val, instruction_val, other_intrinsic,
}

pub data SampleTy : Type 0 where
  void_t i32_t float_t fn_t label_t : SampleTy
  ptr_t arr_t : SampleTy → SampleTy
  pair_t : SampleTy → SampleTy → SampleTy

pub data Node : Type 0 where
  gv malloc_fn assert_fn main_fn entry_bb exit_bb slot load_p store_p cast_p : Node
  call_assert call_indirect call_asm va set_p ret expr inner : Node

unfoldable pub Node-discrete : Discrete Node
Node-discrete = hlevel

abbrev ptr_ptr : SampleTy
ptr_ptr = ptr_t (ptr_t i32_t)

abbrev pub class_of : Node → Class
class_of gv = global_variable
class_of malloc_fn = function
class_of assert_fn = function
class_of main_fn = function
class_of entry_bb = basic_block
class_of exit_bb = basic_block
class_of slot = alloca_inst
class_of load_p = load_inst
class_of store_p = store_inst
class_of cast_p = bit_cast_inst
class_of call_assert = call_inst
class_of call_indirect = call_inst
class_of call_asm = call_inst
class_of va = va_arg_inst
class_of set_p = mem_set_inst
class_of ret = return_inst
class_of expr = constant_expr
class_of inner = constant_expr

abbrev pub type_of : Node → SampleTy
type_of gv = ptr_ptr
type_of malloc_fn = ptr_t fn_t
type_of assert_fn = ptr_t fn_t
type_of main_fn = ptr_t fn_t
type_of entry_bb = label_t
type_of exit_bb = label_t
type_of slot = ptr_ptr
type_of load_p = ptr_t i32_t
type_of cast_p = ptr_t float_t
type_of call_indirect = i32_t
type_of va = ptr_t i32_t
type_of expr = ptr_t i32_t
type_of inner = ptr_t i32_t
type_of _ = void_t

abbrev operands : Node → List Node
operands gv = malloc_fn ∷ []
operands load_p = slot ∷ []
operands store_p = load_p ∷ slot ∷ []
operands cast_p = load_p ∷ []
operands ret = expr ∷ []
operands expr = inner ∷ []
operands inner = gv ∷ []
operands _ = []

abbrev name : Node → Text
name gv = codes "g"
name malloc_fn = codes "malloc"
name assert_fn = codes "__assert_fail"
name main_fn = codes "main"
name entry_bb = codes "entry"
name _ = []

abbrev value_id : Node → ValueId
value_id gv = global_variable_val
value_id malloc_fn = function_val
value_id assert_fn = function_val
value_id main_fn = function_val
value_id entry_bb = basic_block_val
value_id exit_bb = basic_block_val
value_id expr = constant_expr_val
value_id inner = constant_expr_val
value_id _ = instruction_val 0

abbrev insts : Node → List Node
insts entry_bb = slot ∷ load_p ∷ store_p ∷ cast_p ∷ call_assert ∷ call_indirect ∷ call_asm ∷ []
insts exit_bb = va ∷ set_p ∷ ret ∷ []
insts _ = []

abbrev parent : Node → Option Node
parent entry_bb = some main_fn
parent exit_bb = some main_fn
parent va = some exit_bb
parent set_p = some exit_bb
parent ret = some exit_bb
parent gv = none
parent malloc_fn = none
parent assert_fn = none
parent main_fn = none
parent expr = none
parent inner = none
parent _ = some entry_bb

abbrev type_id : SampleTy → TypeId
type_id void_t = void_ty_id
type_id i32_t = integer_ty_id
type_id float_t = float_ty_id
type_id fn_t = function_ty_id
type_id label_t = label_ty_id
type_id (ptr_t t) = pointer_ty_id
type_id (arr_t t) = array_ty_id
type_id (pair_t s t) = struct_ty_id

abbrev pub pointee : SampleTy → Option SampleTy
pointee (ptr_t t) = some t
pointee _ = none

abbrev elements : SampleTy → List SampleTy
elements (pair_t s t) = s ∷ t ∷ []
elements _ = []

abbrev element : SampleTy → SampleTy
element (arr_t t) = t
element t = t

abbrev nesting : SampleTy → ℕ
nesting (arr_t t) = suc (nesting t)
nesting (pair_t s t) = suc (nesting s + nesting t)
nesting _ = 0

abbrev expr_depth : Node → ℕ
expr_depth expr = 2
expr_depth inner = 1
expr_depth _ = 0

abbrev called_function : Node → Option Node
called_function call_assert = some assert_fn
called_function set_p = some malloc_fn
called_function _ = none

abbrev is_node : Node → Node → Bool
is_node v w = elim (Node-discrete v w) [ yes _ ↦ true | no _ ↦ false ]

unfoldable pub sample_isa : Class → Node → Bool
unfolding is_above Class-discrete
sample_isa c v = is_above (suc (depth (class_of v))) c (class_of v)

abbrev pub sample_ir : Ir
sample_ir = record {
  Value = Node;
  Ty = SampleTy;
  value_eq = Node-discrete;
  type_id = type_id;
  pointee = pointee;
  elements = elements;
  element = element;
  is_sized = λ t. true;
  print_type = λ t. codes "type";
  nesting = nesting;
  isa = sample_isa;
  value_id = value_id;
  type_of = type_of;
  name = name;
  print_value = name;
  operands = operands;
  is_binary_op = λ v. false;
  is_get_element_ptr = is_node inner;
  is_cast = is_node expr;
  expr_depth = expr_depth;
  is_declaration = λ v. is_node malloc_fn v || is_node assert_fn v;
  intrinsic_id = λ v. other_intrinsic 0;
  function_type = λ v. fn_t;
  blocks = λ v. elim (Node-discrete v main_fn) [ yes _ ↦ entry_bb ∷ exit_bb ∷ [] | no _ ↦ [] ];
  insts = insts;
  parent = parent;
  called_function = called_function;
  is_inline_asm = is_node call_asm;
  has_side_effects = λ v. false;
}
