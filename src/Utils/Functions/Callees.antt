-- ===== src/Utils/Functions/Callees.antt =====
-- What a call's callee is found to be: `getCalleeFnType` and `is_inlineAsm_withSideEffect`.
use snippets_llvm.Base.{
  true, false, none, some, ◌≡◌, ◌⊎◌, inl, inr, refl, arith, Option-cases, Bool-cases,
}
use snippets_llvm.Outcome.{ok, fault, null_pointer, assertion}
use snippets_llvm.Llvm.{Ir}
use snippets_llvm.Llvm.Classes.{inline_asm, constant}
use snippets_llvm.Llvm.Laws.{IsClassTree, IsCalling}
use snippets_llvm.Llvm.Tree.{constant_of_function}
use snippets_llvm.Utils.Functions.{is_inline_asm_with_side_effect, get_callee_fn_type}

module _ (ir : Ir) (tree : IsClassTree ir) (calling : IsCalling ir) where
  open ir use {Value, isa, is_inline_asm, called_function, function_type}

  -- The query about side effects of inline assembly never answers true: a call of inline assembly,
  -- as every call that is not direct, dereferences null, and a direct call gets the answer false.
  pub side_effect_never_true :
      (c : Value)
      → ((called_function c ≡ none) × (is_inline_asm_with_side_effect ir c ≡ fault null_pointer))
        ⊎ ((f : Value) × (called_function c ≡ some f)
            × (is_inline_asm_with_side_effect ir c ≡ ok false))
  unfolding is_inline_asm_with_side_effect
  side_effect_never_true c = elim (Option-cases (called_function c)) [
    | inl e ↦ inl (e, rw e)
    | inr (f, e) ↦
        let is_const = constant_of_function ir tree f (calling.called_is_function c f e) in
        let no_asm = tree.isa_disjoint constant inline_asm f refl (λ q. cc) is_const in
        inr (f, e, rw (e, is_inline_asm_with_side_effect) (ground arith))
  ]

  -- The type of a callee: an assertion refuses inline assembly, a direct call has the type of the
  -- function it calls, and for every indirect call null is dereferenced: the branch for function
  -- pointers is never taken.
  pub get_callee_fn_type_ends :
      (c : Value)
      → ((is_inline_asm c ≡ true) × (get_callee_fn_type ir c ≡ fault assertion))
        ⊎ ((is_inline_asm c ≡ false)
            × (called_function c ≡ none)
            × (get_callee_fn_type ir c ≡ fault null_pointer))
        ⊎ ((f : Value) × (called_function c ≡ some f)
            × (get_callee_fn_type ir c ≡ ok (some (function_type f))))
  unfolding get_callee_fn_type
  get_callee_fn_type_ends c = elim (Bool-cases (is_inline_asm c)) [
    | inl asm ↦ inl (asm, rw asm)
    | inr no_asm ↦ elim (Option-cases (called_function c)) [
      | inl e ↦ inr (inl (no_asm, e, rw (no_asm, e)))
      | inr (f, e) ↦
          let is_function = calling.called_is_function c f e in
          inr (inr (f, e, rw (no_asm, e) (rw is_function)))
    ]
  ]
