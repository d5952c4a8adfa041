-- ===== src/Llvm/Tree.antt =====
-- Consequences of the class hierarchy: what an instruction is not.
use snippets_llvm.Base.{true, false, ◌≡◌, ◌≢◌, refl, some, arith}
use snippets_llvm.Llvm.{Ir}
use snippets_llvm.Llvm.Classes.{
  Class, base, instruction, constant, global_value, global_variable, function, unary_instruction,
  alloca_inst, load_inst, store_inst, cast_inst, bit_cast_inst, select_inst, extract_value_inst,
  int_to_ptr_inst, phi_node, get_element_ptr_inst, call_inst, insert_value_inst,
}
use snippets_llvm.Llvm.Laws.{IsClassTree}

module _ (ir : Ir) (tree : IsClassTree ir) where
  open ir use {Value, isa}
  open tree use {isa_base, isa_disjoint}

  pub constant_of_global_variable :
      (v : Value) → isa global_variable v ≡ true → isa constant v ≡ true
  constant_of_global_variable v h =
      isa_base global_value constant v refl (isa_base global_variable global_value v refl h)

  pub constant_of_function : (v : Value) → isa function v ≡ true → isa constant v ≡ true
  constant_of_function v h =
      isa_base global_value constant v refl (isa_base function global_value v refl h)

  pub not_constant : (v : Value) → isa instruction v ≡ true → isa constant v ≡ false
  not_constant v h = isa_disjoint instruction constant v refl (λ e. cc) h

  pub not_global_variable : (v : Value) → isa instruction v ≡ true → isa global_variable v ≡ false
  not_global_variable v h = ground (arith, not_constant v h, constant_of_global_variable v)

  pub not_function : (v : Value) → isa instruction v ≡ true → isa function v ≡ false
  not_function v h = ground (arith, not_constant v h, constant_of_function v)

  pub instruction_of_unary : (v : Value) → isa unary_instruction v ≡ true → isa instruction v ≡ true
  instruction_of_unary v h = isa_base unary_instruction instruction v refl h

  pub instruction_of_alloca : (v : Value) → isa alloca_inst v ≡ true → isa instruction v ≡ true
  instruction_of_alloca v h =
      instruction_of_unary v (isa_base alloca_inst unary_instruction v refl h)

  pub instruction_of_load : (v : Value) → isa load_inst v ≡ true → isa instruction v ≡ true
  instruction_of_load v h = instruction_of_unary v (isa_base load_inst unary_instruction v refl h)

  pub instruction_of_store : (v : Value) → isa store_inst v ≡ true → isa instruction v ≡ true
  instruction_of_store v h = isa_base store_inst instruction v refl h

  pub instruction_of_bit_cast : (v : Value) → isa bit_cast_inst v ≡ true → isa instruction v ≡ true
  instruction_of_bit_cast v h =
      instruction_of_unary v
        (isa_base cast_inst unary_instruction v refl (isa_base bit_cast_inst cast_inst v refl h))

  pub instruction_of_select : (v : Value) → isa select_inst v ≡ true → isa instruction v ≡ true
  instruction_of_select v h = isa_base select_inst instruction v refl h

  -- A class whose base class an object does not have is not its class.
  pub not_below : (c d : Class) (v : Value) → base c ≡ some d → isa d v ≡ false → isa c v ≡ false
  not_below c d v e h = ground (arith, isa_base c d v e)

  -- The classes under `UnaryInstruction` that `isPointerManipulation` asks about.
  pub record IsNotUnary (v : Value) : Type 0 where
    pub not_alloca : isa alloca_inst v ≡ false
    pub not_load : isa load_inst v ≡ false
    pub not_extract : isa extract_value_inst v ≡ false
    pub not_bit_cast : isa bit_cast_inst v ≡ false
    pub not_int_to_ptr : isa int_to_ptr_inst v ≡ false

  pub direct-IsNotUnary :
      (c : Class) (v : Value)
      → base c ≡ some instruction
      → c ≢ unary_instruction
      → isa c v ≡ true
      → IsNotUnary v
  direct-IsNotUnary c v e ne h =
      let none_unary = isa_disjoint c unary_instruction v e ne h in
      let none_cast = not_below cast_inst unary_instruction v refl none_unary in
      record {
        not_alloca = not_below alloca_inst unary_instruction v refl none_unary;
        not_load = not_below load_inst unary_instruction v refl none_unary;
        not_extract = not_below extract_value_inst unary_instruction v refl none_unary;
        not_bit_cast = not_below bit_cast_inst cast_inst v refl none_cast;
        not_int_to_ptr = not_below int_to_ptr_inst cast_inst v refl none_cast;
      }

  -- The other direct subclasses of `Instruction` that it asks about.
  pub record IsNotDirect (v : Value) : Type 0 where
    pub not_store : isa store_inst v ≡ false
    pub not_get_element_ptr : isa get_element_ptr_inst v ≡ false
    pub not_call : isa call_inst v ≡ false
    pub not_phi : isa phi_node v ≡ false
    pub not_insert : isa insert_value_inst v ≡ false
    pub not_select : isa select_inst v ≡ false

  pub unary-IsNotDirect : (v : Value) → isa unary_instruction v ≡ true → IsNotDirect v
  unary-IsNotDirect v h = record {
    not_store = isa_disjoint unary_instruction store_inst v refl (λ e. cc) h;
    not_get_element_ptr = isa_disjoint unary_instruction get_element_ptr_inst v refl (λ e. cc) h;
    not_call = isa_disjoint unary_instruction call_inst v refl (λ e. cc) h;
    not_phi = isa_disjoint unary_instruction phi_node v refl (λ e. cc) h;
    not_insert = isa_disjoint unary_instruction insert_value_inst v refl (λ e. cc) h;
    not_select = isa_disjoint unary_instruction select_inst v refl (λ e. cc) h;
  }
