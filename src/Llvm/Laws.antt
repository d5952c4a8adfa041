-- ===== src/Llvm/Laws.antt =====
-- What LLVM's documentation says of the methods in `Ir`, as far as the proofs rely on it.
use mathlib.Core.List.{Memᴰ}
use snippets_llvm.Base.{◌<◌, true, false, none, some, List, [], ◌∷◌, ◌≡◌, ◌≢◌, get_elem?}
use snippets_llvm.Llvm.{Ir, is_pointer_ty, is_struct_ty, is_array_ty}
use snippets_llvm.Llvm.Classes.{
  Class, base, load_inst, store_inst, bit_cast_inst, function, alloca_inst, global_variable,
  insert_value_inst, constant_expr, instruction,
}
use snippets_llvm.Llvm.Ids.{void_ty_id, instruction_val}

-- An object of a class is one of its base class, and of no other class with that base.
pub record IsClassTree (ir : Ir) : Type 0 where
  pub isa_base :
      (c d : Class) (v : ir.Value) → base c ≡ some d → ir.isa c v ≡ true → ir.isa d v ≡ true
  pub isa_disjoint :
      (c d : Class) (v : ir.Value)
      → base c ≡ base d
      → c ≢ d
      → ir.isa c v ≡ true
      → ir.isa d v ≡ false

-- The verifier's rules for operands and types.
pub record IsTyped (ir : Ir) : Type 0 where
  -- Stack slots, global variables and functions are pointers.
  pub alloca_pointer :
      (v : ir.Value) → ir.isa alloca_inst v ≡ true → is_pointer_ty ir (ir.type_of v) ≡ true
  pub global_variable_pointer :
      (v : ir.Value) → ir.isa global_variable v ≡ true → is_pointer_ty ir (ir.type_of v) ≡ true
  pub function_pointer :
      (v : ir.Value) → ir.isa function v ≡ true → is_pointer_ty ir (ir.type_of v) ≡ true
  -- A load reads through its operand, of pointer type, and has the type pointed to.
  pub load_operand :
      (v : ir.Value)
      → ir.isa load_inst v ≡ true
      → (p : ir.Value) × (get_elem? (ir.operands v) 0 ≡ some p)
        × (is_pointer_ty ir (ir.type_of p) ≡ true)
        × ((t : ir.Ty) → ir.pointee (ir.type_of p) ≡ some t → ir.type_of v ≡ t)
  pub store_operand :
      (v : ir.Value)
      → ir.isa store_inst v ≡ true
      → (x : ir.Value) × (get_elem? (ir.operands v) 0 ≡ some x)
        × (ir.type_id (ir.type_of v) ≡ void_ty_id)
  -- A bit cast goes from pointer to pointer, or between other types.
  pub bit_cast_operand :
      (v : ir.Value)
      → ir.isa bit_cast_inst v ≡ true
      → (x : ir.Value) × (get_elem? (ir.operands v) 0 ≡ some x)
        × (is_pointer_ty ir (ir.type_of v) ≡ is_pointer_ty ir (ir.type_of x))
  -- The value that is inserted into an aggregate is the second operand.
  pub insert_value_operand :
      (v : ir.Value)
      → ir.isa insert_value_inst v ≡ true
      → (x : ir.Value) × (get_elem? (ir.operands v) 1 ≡ some x)

-- No pointer type is opaque.
abbrev pub HasPointees : Ir → Type 0
HasPointees ir = (t : ir.Ty) → is_pointer_ty ir t ≡ true → (e : ir.Ty) × (ir.pointee t ≡ some e)

-- By value a type holds less deeply nested types only.
pub record IsNested (ir : Ir) : Type 0 where
  pub element_nesting :
      (t e : ir.Ty)
      → is_struct_ty ir t ≡ true
      → Memᴰ e (ir.elements t)
      → ir.nesting e < ir.nesting t
  pub array_nesting :
      (t : ir.Ty) → is_array_ty ir t ≡ true → ir.nesting (ir.element t) < ir.nesting t

-- A constant expression has a first operand, and its operands are nested less deep.
abbrev pub IsExprNested : Ir → Type 0
IsExprNested ir =
    (v : ir.Value)
    → ir.isa constant_expr v ≡ true
    → (o : ir.Value) × (get_elem? (ir.operands v) 0 ≡ some o) × (ir.expr_depth o < ir.expr_depth v)

-- No element stands twice.
abbrev pub Distinct {ℓ} : {A : Type ℓ} → List A → Type ℓ
Distinct [] = Unit
Distinct (x ∷ xs) = (¬ Memᴰ x xs) × Distinct xs

-- An instruction stands in one block, which is its parent, and there once.
pub record IsPlaced (ir : Ir) : Type 0 where
  pub parent_of : (i b : ir.Value) → Memᴰ i (ir.insts b) → ir.parent i ≡ some b
  pub distinct : (b : ir.Value) → Distinct (ir.insts b)

-- `getCalledFunction` yields a function, and nothing for inline assembly.
pub record IsCalling (ir : Ir) : Type 0 where
  pub called_is_function :
      (c f : ir.Value) → ir.called_function c ≡ some f → ir.isa function f ≡ true
  pub asm_calls_nothing : (c : ir.Value) → ir.is_inline_asm c ≡ true → ir.called_function c ≡ none

-- `getValueID` of an instruction is `InstructionVal` plus its opcode.
abbrev pub HasOpcodes : Ir → Type 0
HasOpcodes ir =
    (v : ir.Value) → ir.isa instruction v ≡ true → (n : _) × (ir.value_id v ≡ instruction_val n)
