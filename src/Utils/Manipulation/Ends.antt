-- ===== src/Utils/Manipulation/Ends.antt =====
-- Which instructions `isPointerManipulation` answers for, and on which it stops the program.
use snippets_llvm.Base.{Bool, true, false, ◌||◌, ◌≡◌, arith, if◌then◌else◌}
use snippets_llvm.Outcome.{ok, fault, fatal_error}
use snippets_llvm.Errs.{Run}
use snippets_llvm.Llvm.{Ir, is_pointer_ty, element_type, dyn_cast_pointer, get_operand}
use snippets_llvm.Llvm.Classes.{
  instruction, alloca_inst, load_inst, store_inst, bit_cast_inst, get_element_ptr_inst, call_inst,
  phi_node, extract_value_inst, insert_value_inst, int_to_ptr_inst, select_inst,
}
use snippets_llvm.Llvm.Laws.{IsClassTree, IsTyped, HasPointees}
use snippets_llvm.Llvm.Tree.{not_global_variable, not_function}
use snippets_llvm.Utils.Pointers.{is_trivial_pointer, is_pointer_value}
use snippets_llvm.Utils.Manipulation.{
  not_a_pointer, loads_pointer, stores_pointer, casts_pointer, reject_pointer, or_reject,
}

-- The classes that the chain of tests names.
abbrev pub is_handled : (ir : Ir) → ir.Value → Bool
is_handled ir v =
    ir.isa alloca_inst v
    || (ir.isa load_inst v
        || (ir.isa store_inst v
            || (ir.isa bit_cast_inst v
                || (ir.isa get_element_ptr_inst v
                    || (ir.isa call_inst v
                        || (ir.isa phi_node v
                            || (ir.isa extract_value_inst v
                                || (ir.isa insert_value_inst v
                                    || (ir.isa int_to_ptr_inst v || ir.isa select_inst v)))))))))

module _ (ir : Ir) (tree : IsClassTree ir) (typed : IsTyped ir) (plain : HasPointees ir) where
  open ir use {Value, isa, type_of}

  pub is_pointer_value-instruction :
      (v : Value)
      → isa instruction v ≡ true
      → isa alloca_inst v ≡ false
      → is_pointer_value ir v ≡ ok (is_pointer_ty ir (type_of v))
  unfolding is_pointer_value is_trivial_pointer
  is_pointer_value-instruction v h a =
      rw (a, not_global_variable ir tree v h, not_function ir tree v h)

  pub reject_pointer-end :
      (v : Value)
      → isa instruction v ≡ true
      → isa alloca_inst v ≡ false
      → (reject_pointer ir v).end
        ≡ (if is_pointer_ty ir (type_of v) then fault (fatal_error not_a_pointer) else ok false)
  unfolding reject_pointer
  reject_pointer-end v h a = ground (arith, is_pointer_value-instruction v h a)

  -- A branch that holds or else goes on to the end of the chain.
  pub or_reject-end :
      (v : Value) (test : Run Bool) {b : Bool}
      → isa instruction v ≡ true
      → isa alloca_inst v ≡ false
      → test.end ≡ ok b
      → (is_pointer_ty ir (type_of v) ≡ true → b ≡ true)
      → (or_reject ir v test).end ≡ ok b
  unfolding or_reject
  or_reject-end v test {b} h a e p = ground (arith, reject_pointer-end v h a)

  -- The operand of a load points to a pointer exactly if the load's result is one.
  pub loads_pointer-end :
      (v : Value)
      → isa load_inst v ≡ true
      → (loads_pointer ir v).end ≡ ok (is_pointer_ty ir (type_of v))
  unfolding loads_pointer get_operand dyn_cast_pointer element_type
  loads_pointer-end v h =
      let (p, e, pointer, result) = typed.load_operand v h in
      let (t, pointed) = plain (type_of p) pointer in ground (arith, result t)

  pub casts_pointer-end :
      (v : Value)
      → isa bit_cast_inst v ≡ true
      → (casts_pointer ir v).end ≡ ok (is_pointer_ty ir (type_of v))
  unfolding casts_pointer stores_pointer get_operand
  casts_pointer-end v h = let (x, e, same) = typed.bit_cast_operand v h in ground arith
