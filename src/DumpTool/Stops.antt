-- ===== src/DumpTool/Stops.antt =====
-- On which blocks the dump tool stops.
use snippets_llvm.Base.{
  Bool, true, false, ◌&&◌, ◌||◌, Option, none, some, List, [], ◌∷◌, ◌≡◌, ◌↔◌, refl, arith,
  Bool-cases, inl, inr, All, codes, ◌++◌, if◌then◌else◌,
}
use snippets_llvm.Outcome.{Fault, fatal_error, ok, fault, null_pointer}
use snippets_llvm.Llvm.{Ir}
use snippets_llvm.Llvm.Classes.{
  instruction, alloca_inst, get_element_ptr_inst, phi_node, call_inst, unary_instruction,
}
use snippets_llvm.Llvm.Laws.{IsClassTree, HasOpcodes}
use snippets_llvm.Llvm.Tree.{unary-IsNotDirect}
use snippets_llvm.Dump.Names.{get_value_str, value_case}
use snippets_llvm.DumpTool.{
  Reader, dump_gep, dump_phi_node, dump_call_inst, dump_inline_asm, dump_alloca, dump_inst,
  dump_insts, dump_basic_block,
}

abbrev is_none : {A : Type 0} → Option A → Bool
is_none none = true
is_none (some a) = false

module _ (ir : Ir) (reader : Reader ir) where
  open ir use {Value, isa, insts, parent, called_function, print_value}

  -- An address computation, a phi node, or a call that is not direct.
  abbrev pub stops : Value → Bool
  stops i =
      isa get_element_ptr_inst i
      || (isa phi_node i || (isa call_inst i && is_none (called_function i)))

  abbrev pub some_stops : List Value → Bool
  some_stops [] = false
  some_stops (i ∷ is) = stops i || some_stops is

  module _ (tree : IsClassTree ir) (opcodes : HasOpcodes ir) where
    get_value_str-fault :
        (v : Value) → isa instruction v ≡ true → (x : Fault) × (get_value_str ir v ≡ fault x)
    unfolding get_value_str value_case
    get_value_str-fault v h =
        let (n, e) = opcodes v h in
        (fatal_error (codes "unimplemented value for " ++ print_value v), rw e refl)

    dump_gep-fault :
        (v : Value)
        → isa instruction v ≡ true
        → (x : Fault) × ((dump_gep ir reader v).end ≡ fault x)
    unfolding dump_gep
    dump_gep-fault v h = let (x, e) = get_value_str-fault v h in (x, rw e refl)

    dump_phi_node-fault :
        (v : Value)
        → isa instruction v ≡ true
        → (x : Fault) × ((dump_phi_node ir reader v).end ≡ fault x)
    unfolding dump_phi_node
    dump_phi_node-fault v h = let (x, e) = get_value_str-fault v h in (x, rw e refl)

    dump_call_inst-end :
        (v : Value)
        → (dump_call_inst ir reader v).end
          ≡ (if is_none (called_function v) then fault null_pointer else ok tt)
    unfolding dump_call_inst dump_inline_asm
    dump_call_inst-end v = ground arith

    dump_inst-end :
        (v : Value)
        → isa instruction v ≡ true
        → ((dump_inst ir reader v).end ≡ ok tt) ↔ (stops v ≡ false)
    unfolding dump_inst dump_alloca
    dump_inst-end v h = elim (Bool-cases (isa alloca_inst v)) [
      | inl a ↦
          let d =
            unary-IsNotDirect ir tree v (tree.isa_base alloca_inst unary_instruction v refl a) in
          ground (arith, d.not_get_element_ptr, d.not_phi, d.not_call)
      | inr a ↦
          ground (arith, (dump_gep-fault v h).1, (dump_phi_node-fault v h).1, dump_call_inst-end v)
    ]

    dump_insts-end :
        (is : List Value)
        → All (λ i. isa instruction i ≡ true) is
        → ((dump_insts ir reader is).end ≡ ok tt) ↔ (some_stops is ≡ false)
    unfolding dump_insts
    dump_insts-end [] h = ground arith
    dump_insts-end (i ∷ is) h = ground (arith, dump_inst-end i h.0, dump_insts-end is h.1)

    -- The dump of a block that stands in a function returns exactly if none of its instructions is
    -- an address computation, a phi node, or a call that is not direct.
    pub dump_basic_block_returns :
        (b f : Value)
        → parent b ≡ some f
        → All (λ i. isa instruction i ≡ true) (insts b)
        → ((dump_basic_block ir reader b).end ≡ ok tt) ↔ (some_stops (insts b) ≡ false)
    unfolding dump_basic_block
    dump_basic_block_returns b f p h = rw p (ground (arith, dump_insts-end (insts b) h))
