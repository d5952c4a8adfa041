-- ===== src/Llvm/Sample/Laws.antt =====
-- The sample module meets the laws.
use mathlib.Core.List.{Memᴰ}
use mathlib.Core.Option.{some-injective}
use snippets_llvm.Base.{
  suc, Bool, true, some, none, ◌<◌, ◌≡◌, refl, arith, inl, inr, Memᴰ-cons, contains,
  contains_of_mem, List, [], ◌∷◌, not, ◌&&◌,
}
use snippets_llvm.Llvm.{is_pointer_ty, is_struct_ty, is_array_ty}
use snippets_llvm.Llvm.Classes.{
  global_variable, function, alloca_inst, load_inst, store_inst, bit_cast_inst, insert_value_inst,
}
use snippets_llvm.Llvm.Hierarchy.{depth, is_above-base, is_above_disjoint}
use snippets_llvm.Llvm.Laws.{
  IsClassTree, IsTyped, IsNested, IsExprNested, IsCalling, IsPlaced, Distinct,
}
use snippets_llvm.Llvm.Sample.{
  Node, SampleTy, sample_isa, sample_ir, class_of, type_of, pointee, gv, load_p, store_p, cast_p,
  slot, ptr_t, arr_t, pair_t, expr, inner, call_assert, set_p, Node-discrete, entry_bb, exit_bb,
}

pub sample_tree : IsClassTree sample_ir
unfolding sample_isa
sample_tree = record {
  isa_base =
      λ c d v e h. is_above-base (suc (depth (class_of v))) c d (class_of v) (omega arith) e h;
  isa_disjoint =
      λ c d v e ne h. is_above_disjoint (suc (depth (class_of v))) c d (class_of v) e ne h;
}

abbrev is_pointer_node : Node → Bool
is_pointer_node v = is_pointer_ty sample_ir (type_of v)

alloca_pointer : (v : Node) → sample_isa alloca_inst v ≡ true → is_pointer_node v ≡ true
unfolding sample_isa
alloca_pointer gv h = refl
alloca_pointer _ h = cc

global_variable_pointer :
    (v : Node) → sample_isa global_variable v ≡ true → is_pointer_node v ≡ true
unfolding sample_isa
global_variable_pointer gv h = refl
global_variable_pointer _ h = cc

function_pointer : (v : Node) → sample_isa function v ≡ true → is_pointer_node v ≡ true
unfolding sample_isa
function_pointer gv h = refl
function_pointer _ h = cc

load_is : (v : Node) → sample_isa load_inst v ≡ true → v ≡ load_p
unfolding sample_isa
load_is load_p h = refl
load_is _ h = cc

store_is : (v : Node) → sample_isa store_inst v ≡ true → v ≡ store_p
unfolding sample_isa
store_is store_p h = refl
store_is _ h = cc

bit_cast_is : (v : Node) → sample_isa bit_cast_inst v ≡ true → v ≡ cast_p
unfolding sample_isa
bit_cast_is cast_p h = refl
bit_cast_is _ h = cc

no_insert : (v : Node) → ¬ (sample_isa insert_value_inst v ≡ true)
unfolding sample_isa
no_insert gv h = cc
no_insert _ h = cc

pub sample_typed : IsTyped sample_ir
sample_typed = record {
  alloca_pointer = alloca_pointer;
  global_variable_pointer = global_variable_pointer;
  function_pointer = function_pointer;
  load_operand = λ v h. (slot, ground (arith, load_is v h), refl, ground (arith, load_is v h));
  store_operand = λ v h. (load_p, ground (arith, store_is v h), ground (arith, store_is v h));
  bit_cast_operand =
      λ v h. (load_p, ground (arith, bit_cast_is v h), ground (arith, bit_cast_is v h));
  insert_value_operand = λ v h. absurd (no_insert v h);
}

pub sample_pointees :
    (t : SampleTy) → is_pointer_ty sample_ir t ≡ true → (e : SampleTy) × (pointee t ≡ some e)
sample_pointees (ptr_t t) h = (t, refl)
sample_pointees _ h = absurd (cc)

pub sample_nested : IsNested sample_ir
sample_nested = record { element_nesting = element_nesting; array_nesting = array_nesting }
  where
    element_nesting :
        (t e : SampleTy)
        → is_struct_ty sample_ir t ≡ true
        → Memᴰ e (sample_ir.elements t)
        → sample_ir.nesting e < sample_ir.nesting t
    element_nesting (pair_t s t) e h m = elim ((Memᴰ-cons e s (t ∷ [])).0 m) [
      | inl x ↦ rw x (omega arith)
      | inr m2 ↦ elim ((Memᴰ-cons e t []).0 m2) [
        | inl x ↦ rw x (omega arith)
        | inr m3 ↦ elim m3 [ ]
      ]
    ]
    element_nesting _ e h m = absurd (cc)

    array_nesting :
        (t : SampleTy)
        → is_array_ty sample_ir t ≡ true
        → sample_ir.nesting (sample_ir.element t) < sample_ir.nesting t
    array_nesting (arr_t t) h = omega arith
    array_nesting _ h = absurd (cc)

pub sample_expr_nested : IsExprNested sample_ir
unfolding sample_isa
sample_expr_nested expr h = (inner, refl, omega arith)
sample_expr_nested inner h = (gv, refl, omega arith)
sample_expr_nested _ h = absurd (cc)

pub sample_calling : IsCalling sample_ir
unfolding sample_isa Node-discrete
sample_calling = record { called_is_function = called; asm_calls_nothing = asm }
  where
    called : (c f : Node) → sample_ir.called_function c ≡ some f → sample_isa function f ≡ true
    called call_assert f h = rw (← some-injective _ _ h) refl
    called set_p f h = rw (← some-injective _ _ h) refl
    called _ f h = cc

    asm : (c : Node) → sample_ir.is_inline_asm c ≡ true → sample_ir.called_function c ≡ none
    asm call_assert h = absurd (cc)
    asm set_p h = absurd (cc)
    asm _ h = refl

-- No element stands twice, decided.
abbrev distinct : List Node → Bool
distinct [] = true
distinct (x ∷ xs) = not (contains Node-discrete xs x) && distinct xs

Distinct_of : (xs : List Node) → distinct xs ≡ true → Distinct xs
Distinct_of [] h = tt
Distinct_of (x ∷ xs) h = (
  λ m. absurd (ground (arith, contains_of_mem Node-discrete x xs m)),
  Distinct_of xs (ground arith),
)

entry_parent :
    (i : Node)
    → contains Node-discrete (sample_ir.insts entry_bb) i ≡ true
    → sample_ir.parent i ≡ some entry_bb
unfolding contains Node-discrete
entry_parent gv h = absurd (cc)
entry_parent _ h = ground arith

exit_parent :
    (i : Node)
    → contains Node-discrete (sample_ir.insts exit_bb) i ≡ true
    → sample_ir.parent i ≡ some exit_bb
unfolding contains Node-discrete
exit_parent gv h = absurd (cc)
exit_parent _ h = ground arith

parent_of :
    (b i : Node) → contains Node-discrete (sample_ir.insts b) i ≡ true → sample_ir.parent i ≡ some b
unfolding contains Node-discrete
parent_of entry_bb i h = entry_parent i h
parent_of exit_bb i h = exit_parent i h
parent_of _ i h = cc

sample_distinct : (b : Node) → Distinct (sample_ir.insts b)
unfolding contains Node-discrete
sample_distinct entry_bb = Distinct_of (sample_ir.insts entry_bb) refl
sample_distinct exit_bb = Distinct_of (sample_ir.insts exit_bb) refl
sample_distinct _ = tt

pub sample_placed : IsPlaced sample_ir
sample_placed = record {
  parent_of = λ i b m. parent_of b i (contains_of_mem Node-discrete i (sample_ir.insts b) m);
  distinct = sample_distinct;
}
