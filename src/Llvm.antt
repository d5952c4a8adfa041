-- ===== src/Llvm.antt =====
-- What the repository reads of LLVM's in-memory representation (llvm/IR), which it does not
-- implement: values and types by address, and the methods that are called on them. `Ir` is a
-- parameter of all that stands on it; Llvm/Laws holds what LLVM's documentation says of it.
pub mod Classes
pub mod Hierarchy
pub mod Laws
pub mod Tree
pub mod Ids
pub mod Sample
use snippets_llvm.Base.{ℕ, Bool, true, false, Option, none, some, List, Text, get_elem?}
use snippets_llvm.Outcome.{Outcome, ok, fault, assertion, null_pointer}
use Classes.{Class}
use Ids.{
  TypeId, ValueId, IntrinsicId, is_pointer_id, is_struct_id, is_array_id, is_integer_id,
  is_function_id,
}

pub record Ir : Type 1 where
  pub Value : Type 0
  pub Ty : Type 0
  -- two pointers are equal
  pub value_eq : Discrete Value
  -- Type: `getTypeID`, `getNonOpaquePointerElementType` (none: the pointer is opaque, and an
  -- assertion fails), `StructType::elements`, `ArrayType::getElementType`, `isSized`, `print`
  pub type_id : Ty → TypeId
  pub pointee : Ty → Option Ty
  pub elements : Ty → List Ty
  pub element : Ty → Ty
  pub is_sized : Ty → Bool
  pub print_type : Ty → Text
  -- how deep aggregates nest by value
  pub nesting : Ty → ℕ
  -- Value: `isa<C>`, `getValueID`, `getType`, `getName`, `print`, `getOperand`
  pub isa : Class → Value → Bool
  pub value_id : Value → ValueId
  pub type_of : Value → Ty
  pub name : Value → Text
  pub print_value : Value → Text
  pub operands : Value → List Value
  -- ConstantExpr: tests of `getOpcode`, and how deep its operands nest
  pub is_binary_op : Value → Bool
  pub is_get_element_ptr : Value → Bool
  pub is_cast : Value → Bool
  pub expr_depth : Value → ℕ
  -- Function and GlobalVariable
  pub is_declaration : Value → Bool
  pub intrinsic_id : Value → IntrinsicId
  pub function_type : Value → Ty
  pub blocks : Value → List Value
  -- BasicBlock, Instruction and Argument: `getParent` is null for what stands in no block or function
  pub insts : Value → List Value
  pub parent : Value → Option Value
  -- CallInst: `getCalledFunction` is null for an indirect call and for inline assembly
  pub called_function : Value → Option Value
  pub is_inline_asm : Value → Bool
  pub has_side_effects : Value → Bool

module _ (ir : Ir) where
  open ir use {Value, Ty, type_id, pointee, operands}

  abbrev pub is_pointer_ty : Ty → Bool
  is_pointer_ty t = is_pointer_id (type_id t)

  abbrev pub is_struct_ty : Ty → Bool
  is_struct_ty t = is_struct_id (type_id t)

  abbrev pub is_array_ty : Ty → Bool
  is_array_ty t = is_array_id (type_id t)

  -- `isa<IntegerType>(t)`
  abbrev pub is_integer_ty : Ty → Bool
  is_integer_ty t = is_integer_id (type_id t)

  abbrev pub is_function_ty : Ty → Bool
  is_function_ty t = is_function_id (type_id t)

  -- `getNonOpaquePointerElementType`
  unfoldable pub element_type : Ty → Outcome Ty
  element_type t = elim (pointee t) [ none ↦ fault assertion | some e ↦ ok e ]

  -- `getOperand(i)`, which asserts that there is such an operand
  unfoldable pub get_operand : Value → ℕ → Outcome Value
  get_operand v i = elim (get_elem? (operands v) i) [ none ↦ fault assertion | some o ↦ ok o ]

  -- `cast<PointerType>(t)`, which asserts the class
  unfoldable pub cast_pointer : Ty → Outcome Ty
  cast_pointer t = elim (is_pointer_ty t) [ true ↦ ok t | false ↦ fault assertion ]

  -- `dyn_cast<PointerType>(t)->…`: the method is called on null if `t` is no pointer
  unfoldable pub dyn_cast_pointer : Ty → Outcome Ty
  dyn_cast_pointer t = elim (is_pointer_ty t) [ true ↦ ok t | false ↦ fault null_pointer ]
