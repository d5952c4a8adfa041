-- ===== src/Utils/Exprs/Strips.antt =====
-- `elimConstExpr` strips address computations and casts down to what they start from.
use snippets_llvm.Base.{
  ℕ, zero, suc, ◌<◌, true, false, ◌||◌, Option, some, ◌≡◌, ◌⊎◌, inl, inr, refl, sym, subst, arith,
  Bool-cases, get_elem?,
}
use snippets_llvm.Outcome.{Outcome, ok, fault, assertion}
use snippets_llvm.Llvm.{Ir, get_operand}
use snippets_llvm.Llvm.Classes.{constant_expr}
use snippets_llvm.Llvm.Laws.{IsExprNested}
use snippets_llvm.Utils.Exprs.{elim_const_expr_in, elim_const_expr}

-- An address computation or a cast, which the code looks through.
pub record IsWrapper (ir : Ir) (v : ir.Value) : Type 0 where
  pub expr : ir.isa constant_expr v ≡ true
  pub not_binary : ir.is_binary_op v ≡ false
  pub through : ir.is_get_element_ptr v || ir.is_cast v ≡ true

-- From `v` one comes to `r` by first operands of wrappers.
pub data Strips (ir : Ir) (r : ir.Value) : ir.Value → Type 0 where
  here : {v : ir.Value} → v ≡ r → Strips ir r v
  next :
      {v : ir.Value} (o : ir.Value)
      → IsWrapper ir v
      → get_elem? (ir.operands v) 0 ≡ some o
      → Strips ir r o
      → Strips ir r v

-- No constant expression, or an arithmetic one.
abbrev pub IsStart : (ir : Ir) → ir.Value → Type 0
IsStart ir r = (ir.isa constant_expr r ≡ false) ⊎ (ir.is_binary_op r ≡ true)

-- A constant expression of another kind.
pub record IsUnsupported (ir : Ir) (v : ir.Value) : Type 0 where
  pub expr : ir.isa constant_expr v ≡ true
  pub not_binary : ir.is_binary_op v ≡ false
  pub not_through : ir.is_get_element_ptr v || ir.is_cast v ≡ false

module _ (ir : Ir) (nested : IsExprNested ir) where
  open ir use {Value, isa, is_binary_op, is_get_element_ptr, is_cast, expr_depth}

  abbrev Ends : Option (Outcome Value) → Value → Type 0
  Ends x v =
      ((r : Value) × (x ≡ some (ok r)) × Strips ir r v × IsStart ir r)
      ⊎ ((u : Value) × (x ≡ some (fault assertion)) × Strips ir u v × IsUnsupported ir u)

  Ends-next :
      (x : Option (Outcome Value)) {v : Value} (o : Value)
      → IsWrapper ir v
      → get_elem? (ir.operands v) 0 ≡ some o
      → Ends x o
      → Ends x v
  Ends-next x o w e (inl (r, h, s, b)) = inl (r, h, Strips.next o w e s, b)
  Ends-next x o w e (inr (u, h, s, b)) = inr (u, h, Strips.next o w e s, b)

  elim_in-Ends :
      (fuel : ℕ) (v : Value) → expr_depth v < fuel → Ends (elim_const_expr_in ir fuel v) v
  unfolding elim_const_expr_in get_operand
  elim_in-Ends zero v h = elim h [ ]
  elim_in-Ends (suc fuel) v h = elim (Bool-cases (isa constant_expr v)) [
    | inr no_expr ↦ inl (v, ground arith, Strips.here refl, inl no_expr)
    | inl is_expr ↦ elim (Bool-cases (is_binary_op v)) [
      | inl binary ↦ inl (v, ground arith, Strips.here refl, inr binary)
      | inr other ↦ elim (Bool-cases (is_get_element_ptr v || is_cast v)) [
        | inr neither ↦ inr (
          v,
          ground arith,
          Strips.here refl,
          record { expr = is_expr; not_binary = other; not_through = neither },
        )
        | inl through ↦
            let (o, e, less) = nested v is_expr in
            let wrapper : IsWrapper ir v = record {
              expr = is_expr;
              not_binary = other;
              through = through;
            } in
            let step : elim_const_expr_in ir (suc fuel) v ≡ elim_const_expr_in ir fuel o =
              ground arith in
            subst (λ x. Ends x v) (sym step)
              (Ends-next _ o wrapper e (elim_in-Ends fuel o (omega arith)))
      ]
    ]
  ]

  -- The recursion ends. It yields a value that is no constant expression or an arithmetic one, which
  -- first operands of address computations and casts lead to; or it meets a constant expression of
  -- another kind on that way, and the assertion fails.
  pub elim_const_expr_ends :
      (v : Value)
      → ((r : Value) × (elim_const_expr ir v ≡ some (ok r)) × Strips ir r v × IsStart ir r)
        ⊎ ((u : Value) × (elim_const_expr ir v ≡ some (fault assertion))
            × Strips ir u v
            × IsUnsupported ir u)
  unfolding elim_const_expr
  elim_const_expr_ends v = elim_in-Ends (suc (expr_depth v)) v (omega arith)
