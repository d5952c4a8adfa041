-- ===== src/Dump/InstKind/Ends.antt =====
-- On which instructions `printInstKind` aborts, and what it prints of casts.
use snippets_llvm.Base.{
  ◌<◌, Bool, false, ◌&&◌, ◌||◌, some, List, [], ◌∷◌, ◌≡◌, refl, arith, codes, length, if◌then◌else◌,
}
use snippets_llvm.Outcome.{ok, fault, aborted}
use snippets_llvm.Llvm.{Ir}
use snippets_llvm.Llvm.Classes.{
  Class, base, binary_operator, call_inst, icmp_inst, fcmp_inst, extract_element_inst,
  get_element_ptr_inst, insert_value_inst, phi_node, select_inst, shuffle_vector_inst, store_inst,
  branch_inst, indirect_br_inst, invoke_inst, return_inst, switch_inst, unreachable_inst,
  alloca_inst, cast_inst, extract_value_inst, load_inst, va_arg_inst, bit_cast_inst, fp_ext_inst,
  fp_to_si_inst, fp_to_ui_inst, fp_trunc_inst, int_to_ptr_inst, ptr_to_int_inst, s_ext_inst,
  si_to_fp_inst, trunc_inst, ui_to_fp_inst, z_ext_inst,
}
use snippets_llvm.Llvm.Laws.{IsClassTree}
use snippets_llvm.Dump.InstType.{inst_type_str}
use snippets_llvm.Dump.InstType.Extract.{NoClose, inst_type_str-isa}
use snippets_llvm.Dump.Printing.{rbscope_diagnostics}
use snippets_llvm.Dump.InstKind.{
  class_text, key, Tests, first_kinds, other_kinds, call_kinds, inst_kind_dump, dump_kinds,
  print_call_kind, print_other_kind, print_inst_kind,
}

class_text-NoClose : (c : Class) → NoClose (class_text c)
unfolding class_text
class_text-NoClose binary_operator = omega arith
class_text-NoClose _ = omega arith

length-class_text : (c : Class) → length (class_text c) < 20
unfolding class_text
length-class_text binary_operator = omega arith
length-class_text _ = omega arith

-- The label of a test is the class's name.
pub inst_type_str-key : (c : Class) → inst_type_str (key c) ≡ ok (class_text c)
inst_type_str-key c =
    inst_type_str-isa (class_text c) (codes "(I)") (class_text-NoClose c)
      (omega (arith, length-class_text c))

module _ (ir : Ir) where
  open ir use {Value, isa, is_inline_asm}

  -- Some test that stops holds.
  abbrev leaves : Tests → Value → Bool
  leaves [] i = false
  leaves ((stops, c) ∷ tests) i = (stops && isa c i) || leaves tests i

  inst_kind_dump-end :
      (stops : Bool) (c : Class) (i : Value)
      → (inst_kind_dump ir stops c i).end ≡ ok (stops && isa c i)
  unfolding inst_kind_dump
  inst_kind_dump-end stops c i = ground (arith, inst_type_str-key c)

  dump_kinds-end : (tests : Tests) (i : Value) → (dump_kinds ir tests i).end ≡ ok (leaves tests i)
  unfolding dump_kinds
  dump_kinds-end [] i = refl
  dump_kinds-end ((stops, c) ∷ tests) i =
      ground (arith, inst_kind_dump-end stops c i, dump_kinds-end tests i)

  -- An object of one of the classes.
  abbrev pub is_one_of : List Class → Value → Bool
  is_one_of [] i = false
  is_one_of (c ∷ cs) i = isa c i || is_one_of cs i

  -- The classes of instruction that the chain ends at.
  abbrev pub ending : List Class
  ending =
      icmp_inst ∷ fcmp_inst ∷ extract_element_inst ∷ get_element_ptr_inst ∷ insert_value_inst
      ∷ phi_node ∷ select_inst ∷ shuffle_vector_inst ∷ store_inst ∷ branch_inst ∷ indirect_br_inst
      ∷ invoke_inst ∷ return_inst ∷ switch_inst ∷ unreachable_inst ∷ alloca_inst ∷ cast_inst
      ∷ extract_value_inst ∷ load_inst ∷ va_arg_inst ∷ []

  cast_of :
      IsClassTree ir
      → (c : Class) (i : Value) → base c ≡ some cast_inst
      → (isa cast_inst i || isa c i) ≡ isa cast_inst i
  cast_of tree c i e = ground (arith, tree.isa_base c cast_inst i e)

  -- The tests for single casts add nothing to the test for casts.
  leaves-ending : IsClassTree ir → (i : Value) → leaves other_kinds i ≡ is_one_of ending i
  leaves-ending tree i = ground (
    arith,
    cast_of tree bit_cast_inst i refl,
    cast_of tree fp_ext_inst i refl,
    cast_of tree fp_to_si_inst i refl,
    cast_of tree fp_to_ui_inst i refl,
    cast_of tree fp_trunc_inst i refl,
    cast_of tree int_to_ptr_inst i refl,
    cast_of tree ptr_to_int_inst i refl,
    cast_of tree s_ext_inst i refl,
    cast_of tree si_to_fp_inst i refl,
    cast_of tree trunc_inst i refl,
    cast_of tree ui_to_fp_inst i refl,
    cast_of tree z_ext_inst i refl,
  )

  print_call_kind-end : (i : Value) → (print_call_kind ir i).end ≡ ok tt
  unfolding print_call_kind
  print_call_kind-end i = ground (arith, dump_kinds-end call_kinds i)

  print_other_kind-end :
      (i : Value)
      → (print_other_kind ir i).end ≡ (if leaves other_kinds i then ok tt else fault aborted)
  unfolding print_other_kind rbscope_diagnostics
  print_other_kind-end i = ground (arith, dump_kinds-end other_kinds i)

  -- Where the hierarchy is a tree, `printInstKind` returns exactly on binary operators, on calls
  -- and on the twenty classes of `ending`; on every other instruction it aborts the program.
  pub print_inst_kind_ends :
      IsClassTree ir
      → (i : Value)
      → (print_inst_kind ir i).end
        ≡ (if is_one_of (binary_operator ∷ call_inst ∷ ending) i then ok tt else fault aborted)
  unfolding print_inst_kind
  print_inst_kind_ends tree i = ground (
    arith,
    dump_kinds-end first_kinds i,
    print_call_kind-end i,
    print_other_kind-end i,
    leaves-ending tree i,
  )
