-- ===== src/Utils/Blocks.antt =====
-- lib/mybase/LLUtils.cc, `getSuccInBlock`, `getPredInBlock` and `getAssertCallSite`.
pub mod Neighbours
pub mod Asserts
use mathlib.Core.Logic.{ite}
use snippets_llvm.Base.{
  Bool, true, false, ◌&&◌, Option, none, some, List, [], ◌∷◌, ◌++◌, Text, codes, text_eq, head?,
  if◌then◌else◌,
}
use snippets_llvm.Outcome.{Outcome, ok, deref, ◌>>=◌}
use snippets_llvm.Llvm.{Ir}
use snippets_llvm.Llvm.Classes.{call_inst}

module _ {ℓ} {A : Type ℓ} (eq : Discrete A) where
  -- An iterator at `a`, one step on: `none` is `end()`.
  pub next_in : A → List A → Option A
  next_in a [] = none
  next_in a (x ∷ xs) = ite (eq a x) (head? xs) (next_in a xs)

  -- An iterator at `a`, one step back, `before` being what stands before the list: `none` if
  -- `begin()` is at `a`.
  pub prev_in : Option A → A → List A → Option A
  prev_in before a [] = none
  prev_in before a (x ∷ xs) = ite (eq a x) before (prev_in (some x) a xs)

module _ (ir : Ir) where
  open ir use {Value, value_eq, isa, name, blocks, insts, parent, called_function}

  -- `ok none` is the null pointer.
  unfoldable pub get_succ_in_block : Value → Outcome (Option Value)
  unfolding next_in
  get_succ_in_block i = do block ← deref (parent i); ok (next_in value_eq i (insts block))

  unfoldable pub get_pred_in_block : Value → Outcome (Option Value)
  unfolding prev_in
  get_pred_in_block i = do block ← deref (parent i); ok (prev_in value_eq none i (insts block))

  -- `callee && callee->getName() == "__assert_fail"`
  pub is_assert_fail : Option Value → Bool
  is_assert_fail none = false
  is_assert_fail (some callee) = text_eq (name callee) (codes "__assert_fail")

  -- The loop over the instructions of a block.
  pub scan_insts : List Value → List Value → List Value
  scan_insts calls [] = calls
  scan_insts calls (i ∷ is) =
      scan_insts
        (if isa call_inst i && is_assert_fail (called_function i) then calls ++ (i ∷ []) else calls)
        is

  -- The loop over the blocks of a function.
  pub scan_blocks : List Value → List Value → List Value
  scan_blocks calls [] = calls
  scan_blocks calls (b ∷ bs) = scan_blocks (scan_insts calls (insts b)) bs

  unfoldable pub get_assert_call_site : Value → List Value
  unfolding scan_insts scan_blocks is_assert_fail
  get_assert_call_site f = scan_blocks [] (blocks f)
