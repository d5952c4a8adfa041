-- ===== src/Utils/Tests.antt =====
-- The queries of LLUtils.cc on the sample module.
use snippets_llvm.Base.{
  Bool, true, false, none, some, ◌≡◌, ◌↔◌, ◌⊎◌, refl, codes, keep, flat_map, if◌then◌else◌,
}
use snippets_llvm.Outcome.{ok, fault, assertion, null_pointer}
use snippets_llvm.Llvm.Classes.{call_inst}
use snippets_llvm.Llvm.Sample.{
  Node, SampleTy, sample_ir, sample_isa, type_of, malloc_fn, main_fn, slot, load_p, va, call_asm,
  call_indirect, entry_bb, exit_bb, expr, pair_t, arr_t, ptr_t, i32_t, float_t,
}
use snippets_llvm.Llvm.Sample.Laws.{
  sample_tree, sample_typed, sample_pointees, sample_nested, sample_expr_nested, sample_calling,
  sample_placed,
}
use snippets_llvm.Utils.Manipulation.{is_pointer_manipulation}
use snippets_llvm.Utils.Manipulation.Answers.{Answer, is_pointer_manipulation-Answer}
use snippets_llvm.Utils.Functions.{
  is_fn_mem_ops, is_inline_asm_with_side_effect, get_callee_fn_type,
}
use snippets_llvm.Utils.Functions.MemOps.{IsMemId, is_fn_mem_ops_iff}
use snippets_llvm.Utils.Functions.Callees.{side_effect_never_true, get_callee_fn_type_ends}
use snippets_llvm.Utils.Pointers.{is_pointer_value, is_pointer_to_pointer_value}
use snippets_llvm.Utils.Pointers.Levels.{is_trivial, is_deep, is_pointer_value-deep}
use snippets_llvm.Utils.Types.{is_integer_related_type}
use snippets_llvm.Utils.Types.IntegerRelated.{IntegerRelated, is_integer_related_type-decides}
use snippets_llvm.Utils.Exprs.{elim_const_expr}
use snippets_llvm.Utils.Exprs.Strips.{Strips, IsStart, IsUnsupported, elim_const_expr_ends}
use snippets_llvm.Utils.Visits.{visit_bb}
use snippets_llvm.Utils.Visits.Lines.{Visits, visit_bb-Visits}
use snippets_llvm.Utils.Blocks.{get_succ_in_block, get_pred_in_block, get_assert_call_site}
use snippets_llvm.Utils.Blocks.Neighbours.{succ_iff_pred}
use snippets_llvm.Utils.Blocks.Asserts.{get_assert_call_site-keep}

-- On a `va_arg` that yields a pointer it stops the program.
is_pointer_manipulation-Answer_example :
    Answer sample_ir va (is_pointer_manipulation sample_ir va).end
unfolding sample_isa
is_pointer_manipulation-Answer_example =
    is_pointer_manipulation-Answer sample_ir sample_tree sample_typed sample_pointees va refl

is_fn_mem_ops_iff_example : (is_fn_mem_ops sample_ir (some malloc_fn) ≡ true) ↔ (
    (sample_ir.is_declaration malloc_fn ≡ true)
      × ((sample_ir.name malloc_fn ≡ codes "malloc") ⊎ (sample_ir.name malloc_fn ≡ codes "free"))
    ⊎ IsMemId (sample_ir.intrinsic_id malloc_fn))
is_fn_mem_ops_iff_example = is_fn_mem_ops_iff sample_ir malloc_fn

-- A call of inline assembly
side_effect_never_true_example :
    ((sample_ir.called_function call_asm ≡ none)
      × (is_inline_asm_with_side_effect sample_ir call_asm ≡ fault null_pointer))
    ⊎ ((f : Node) × (sample_ir.called_function call_asm ≡ some f)
        × (is_inline_asm_with_side_effect sample_ir call_asm ≡ ok false))
side_effect_never_true_example =
    side_effect_never_true sample_ir sample_tree sample_calling call_asm

-- A call through a pointer
get_callee_fn_type_ends_example :
    ((sample_ir.is_inline_asm call_indirect ≡ true)
      × (get_callee_fn_type sample_ir call_indirect ≡ fault assertion))
    ⊎ ((sample_ir.is_inline_asm call_indirect ≡ false)
        × (sample_ir.called_function call_indirect ≡ none)
        × (get_callee_fn_type sample_ir call_indirect ≡ fault null_pointer))
    ⊎ ((f : Node) × (sample_ir.called_function call_indirect ≡ some f)
        × (get_callee_fn_type sample_ir call_indirect ≡ ok (some (sample_ir.function_type f))))
get_callee_fn_type_ends_example =
    get_callee_fn_type_ends sample_ir sample_tree sample_calling call_indirect

-- A stack slot for a pointer to an integer
is_pointer_value-deep_example :
    (is_pointer_value sample_ir slot
      ≡ ok (is_deep sample_ir (if is_trivial sample_ir slot then 2 else 1) (type_of slot)))
    × (is_pointer_to_pointer_value sample_ir slot
        ≡ ok (is_deep sample_ir (if is_trivial sample_ir slot then 3 else 2) (type_of slot)))
is_pointer_value-deep_example = is_pointer_value-deep sample_ir sample_typed sample_pointees slot

-- A struct of a pointer to an integer and an array of floating-point numbers
abbrev mixed : SampleTy
mixed = pair_t (ptr_t i32_t) (arr_t float_t)

is_integer_related_type-decides_example :
    (b : Bool) × (is_integer_related_type sample_ir mixed ≡ some (ok b))
    × ((b ≡ true) ↔ ∥ IntegerRelated sample_ir mixed ∥₁)
is_integer_related_type-decides_example =
    is_integer_related_type-decides sample_ir sample_nested sample_pointees mixed

-- A cast of an address computation of a global variable
elim_const_expr_ends_example :
    ((r : Node) × (elim_const_expr sample_ir expr ≡ some (ok r))
      × Strips sample_ir r expr
      × IsStart sample_ir r)
    ⊎ ((u : Node) × (elim_const_expr sample_ir expr ≡ some (fault assertion))
        × Strips sample_ir u expr
        × IsUnsupported sample_ir u)
elim_const_expr_ends_example = elim_const_expr_ends sample_ir sample_expr_nested expr

succ_iff_pred_example :
    (get_succ_in_block sample_ir slot ≡ ok (some load_p))
    ↔ (get_pred_in_block sample_ir load_p ≡ ok (some slot))
succ_iff_pred_example =
    succ_iff_pred sample_ir sample_placed slot load_p entry_bb entry_bb refl refl

get_assert_call_site-keep_example :
    (p : Node → Bool) × ((i : Node)
      → (p i ≡ true) ↔ (
          (sample_isa call_inst i ≡ true)
          × ((g : Node) × (sample_ir.called_function i ≡ some g)
              × (sample_ir.name g ≡ codes "__assert_fail"))))
    × (get_assert_call_site sample_ir main_fn
        ≡ keep p (flat_map sample_ir.insts (sample_ir.blocks main_fn)))
get_assert_call_site-keep_example = get_assert_call_site-keep sample_ir main_fn

-- Pointer manipulations of a block, with an instruction on which the program stops
visit_bb-Visits_example :
    Visits sample_ir
      (is_pointer_manipulation sample_ir)
      (sample_ir.insts exit_bb)
      (visit_bb sample_ir exit_bb (is_pointer_manipulation sample_ir))
visit_bb-Visits_example = visit_bb-Visits sample_ir exit_bb (is_pointer_manipulation sample_ir)
