-- ===== src/Utils/Manipulation/Answers.antt =====
-- The answer of `isPointerManipulation` on every instruction.
use snippets_llvm.Base.{
  Bool, true, false, ◌||◌, some, get_elem?, sym, subst, inl, inr, Bool-cases, ◌≡◌, refl, arith,
  if◌then◌else◌,
}
use snippets_llvm.Outcome.{Outcome, ok, fault, fatal_error}
use snippets_llvm.Errs.{Run, lift, pure}
use snippets_llvm.Llvm.{Ir, is_pointer_ty, get_operand}
use snippets_llvm.Llvm.Classes.{
  instruction, alloca_inst, load_inst, store_inst, bit_cast_inst, phi_node, extract_value_inst,
  insert_value_inst, select_inst, get_element_ptr_inst, call_inst, int_to_ptr_inst,
}
use snippets_llvm.Llvm.Laws.{IsClassTree, IsTyped, HasPointees}
use snippets_llvm.Llvm.Tree.{instruction_of_store}
use snippets_llvm.Utils.Pointers.{is_pointer_value}
use snippets_llvm.Utils.Functions.{is_fn_mem_ops}
use snippets_llvm.Utils.Manipulation.{
  not_a_pointer, is_pointer_manipulation, casts_pointer, loads_pointer, stores_pointer,
  insert_pointer, reject_pointer, or_reject,
}
use snippets_llvm.Utils.Manipulation.Ends.{
  is_handled, reject_pointer-end, is_pointer_value-instruction, or_reject-end, loads_pointer-end,
  casts_pointer-end,
}

-- What `isPointerManipulation` ends by, by the class of the instruction.
pub data Answer (ir : Ir) (v : ir.Value) : Outcome Bool → Type 0 where
  of_slot : ir.isa alloca_inst v ≡ true → Answer ir v (ok false)
  by_result :
      (ir.isa load_inst v
          || (ir.isa bit_cast_inst v
              || (ir.isa phi_node v || (ir.isa extract_value_inst v || ir.isa select_inst v))))
        ≡ true
      → Answer ir v (ok (is_pointer_ty ir (ir.type_of v)))
  by_stored :
      (x : ir.Value)
      → ir.isa store_inst v ≡ true
      → get_elem? (ir.operands v) 0 ≡ some x
      → Answer ir v (ok (is_pointer_ty ir (ir.type_of x)))
  by_inserted :
      (x : ir.Value)
      → ir.isa insert_value_inst v ≡ true
      → get_elem? (ir.operands v) 1 ≡ some x
      → Answer ir v (is_pointer_value ir x)
  of_address :
      (ir.isa get_element_ptr_inst v || ir.isa int_to_ptr_inst v) ≡ true → Answer ir v (ok true)
  of_asm : ir.isa call_inst v ≡ true → ir.is_inline_asm v ≡ true → Answer ir v (ok false)
  by_called :
      ir.isa call_inst v ≡ true
      → ir.is_inline_asm v ≡ false
      → Answer ir v (ok (is_fn_mem_ops ir (ir.called_function v)))
  no_result :
      is_handled ir v ≡ false → is_pointer_ty ir (ir.type_of v) ≡ false → Answer ir v (ok false)
  not_handled :
      is_handled ir v ≡ false
      → is_pointer_ty ir (ir.type_of v) ≡ true
      → Answer ir v (fault (fatal_error not_a_pointer))

module _ (ir : Ir) (tree : IsClassTree ir) (typed : IsTyped ir) (plain : HasPointees ir) where
  open ir use {Value, isa, type_of}

  if_end :
      (v : Value) (c : Bool) (x y : Run Bool)
      → (c ≡ true → Answer ir v x.end)
      → (c ≡ false → Answer ir v y.end)
      → Answer ir v (if c then x else y).end
  if_end v true x y hx hy = hx refl
  if_end v false x y hx hy = hy refl

  or_reject-Answer :
      (v : Value) (test : Run Bool) (b : Bool)
      → isa instruction v ≡ true
      → isa alloca_inst v ≡ false
      → test.end ≡ ok b
      → (is_pointer_ty ir (type_of v) ≡ true → b ≡ true)
      → Answer ir v (ok b)
      → Answer ir v (or_reject ir v test).end
  or_reject-Answer v test b h a e p answer =
      subst (Answer ir v) (sym (or_reject-end ir tree typed plain v test h a e p)) answer

  value-Answer :
      (v : Value)
      → isa instruction v ≡ true
      → isa alloca_inst v ≡ false
      → Answer ir v (ok (is_pointer_ty ir (type_of v)))
      → Answer ir v (is_pointer_value ir v)
  value-Answer v h a answer =
      subst (Answer ir v) (sym (is_pointer_value-instruction ir tree typed plain v h a)) answer

  store-Answer :
      (v : Value)
      → isa alloca_inst v ≡ false
      → isa store_inst v ≡ true
      → Answer ir v (or_reject ir v (stores_pointer ir v)).end
  unfolding stores_pointer get_operand
  store-Answer v a c =
      let (x, e, none_yet) = typed.store_operand v c in
      or_reject-Answer v (stores_pointer ir v) (is_pointer_ty ir (type_of x))
        (instruction_of_store ir tree v c) a (ground arith) (λ p. ground arith) (by_stored x c e)

  insert-Answer :
      (v : Value) → isa insert_value_inst v ≡ true → Answer ir v (insert_pointer ir v).end
  unfolding insert_pointer get_operand
  insert-Answer v c =
      let (x, e) = typed.insert_value_operand v c in rw (get_operand, e) (by_inserted x c e)

  reject-Answer :
      (v : Value)
      → isa instruction v ≡ true
      → is_handled ir v ≡ false
      → Answer ir v (reject_pointer ir v).end
  reject-Answer v h e =
      rw (reject_pointer-end ir tree typed plain v h (ground arith))
        (elim (Bool-cases (is_pointer_ty ir (type_of v))) [
          | inl p ↦ rw p (not_handled e p)
          | inr p ↦ rw p (no_result e p)
        ])

  call-Answer :
      (v : Value)
      → isa call_inst v ≡ true
      → Answer ir v
          (if ir.is_inline_asm v
            then pure false
            else pure (is_fn_mem_ops ir (ir.called_function v))).end
  call-Answer v c =
      if_end v (ir.is_inline_asm v) _ _ (λ asm. of_asm c asm) (λ called. by_called c called)

  -- With no opaque pointers and well-typed operands, `isPointerManipulation` answers on an
  -- instruction: for a stack slot and for inline assembly no; for an address computation and a cast
  -- of an integer to a pointer yes; for a load, a bit cast, a phi node, an extraction and a selection
  -- whether the result is a pointer; for a store whether the stored value is one; for an insertion what
  -- `isPointerValue` says of the inserted one; for another call whether the called function counts
  -- as a memory operation; and of the other classes it stops the program on an instruction whose
  -- result is a pointer, and answers no on the rest.
  pub is_pointer_manipulation-Answer :
      (v : Value) → isa instruction v ≡ true → Answer ir v (is_pointer_manipulation ir v).end
  unfolding is_pointer_manipulation
  is_pointer_manipulation-Answer v h = if_end v (isa alloca_inst v) _ _ of_slot λ a.
      if_end v (isa load_inst v) _ _
        (λ c.
          or_reject-Answer v (loads_pointer ir v) _ h a (loads_pointer-end ir tree typed plain v c)
            (λ p. p) (by_result (ground arith)))
        λ not_l. if_end v (isa store_inst v) _ _ (store-Answer v a) λ not_s.
          if_end v (isa bit_cast_inst v) _ _
            (λ c.
              or_reject-Answer v (casts_pointer ir v) _ h a
                (casts_pointer-end ir tree typed plain v c) (λ p. p) (by_result (ground arith)))
            λ not_b.
              if_end v (isa get_element_ptr_inst v) _ _ (λ c. of_address (ground arith))
                λ not_g. if_end v (isa call_inst v) _ _ (call-Answer v) λ not_c.
                  if_end v (isa phi_node v) _ _ (λ c. value-Answer v h a (by_result (ground arith)))
                    λ not_p.
                      if_end v (isa extract_value_inst v) _ _
                        (λ c. value-Answer v h a (by_result (ground arith)))
                        λ not_e. if_end v (isa insert_value_inst v) _ _ (insert-Answer v) λ not_i.
                          if_end v (isa int_to_ptr_inst v) _ _ (λ c. of_address (ground arith))
                            λ not_n.
                              if_end v (isa select_inst v) _ _
                                (λ c.
                                  or_reject-Answer v (lift (is_pointer_value ir v)) _ h a
                                    (is_pointer_value-instruction ir tree typed plain v h a)
                                    (λ p. p) (by_result (ground arith)))
                                λ not_q. reject-Answer v h (ground arith)
