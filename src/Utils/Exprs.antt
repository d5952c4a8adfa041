-- ===== src/Utils/Exprs.antt =====
-- lib/mybase/LLUtils.cc, `elimConstExpr`.
pub mod Strips
use snippets_llvm.Base.{ℕ, zero, suc, Bool, true, false, ◌||◌, Option, none, some, if◌then◌else◌}
use snippets_llvm.Outcome.{Outcome, ok, fault, assertion}
use snippets_llvm.Llvm.{Ir, get_operand}
use snippets_llvm.Llvm.Classes.{constant_expr}

module _ (ir : Ir) where
  open ir use {Value, isa, is_binary_op, is_get_element_ptr, is_cast, expr_depth}

  abbrev on_operand : Outcome Value → (Value → Option (Outcome Value)) → Option (Outcome Value)
  on_operand (fault e) call = some (fault e)
  on_operand (ok o) call = call o

  -- The recursion; `none` means that the fuel ran out.
  pub elim_const_expr_in : ℕ → Value → Option (Outcome Value)
  elim_const_expr_in zero v = none
  elim_const_expr_in (suc fuel) v =
      let first = on_operand (get_operand ir v 0) (elim_const_expr_in fuel) in
      if isa constant_expr v
      then (if is_binary_op v
          then some (ok v)
          else if is_get_element_ptr v || is_cast v
          then first
          else some (fault assertion))
      else some (ok v)

  -- Each call looks at an operand, which is nested less deep.
  unfoldable pub elim_const_expr : Value → Option (Outcome Value)
  unfolding elim_const_expr_in get_operand
  elim_const_expr v = elim_const_expr_in (suc (expr_depth v)) v
