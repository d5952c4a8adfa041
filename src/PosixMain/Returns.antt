-- ===== src/PosixMain/Returns.antt =====
-- On which modules posix-main returns.
use snippets_llvm.Base.{
  ◌≡◌, ◌↔◌, refl, arith, Bool, true, false, ◌&&◌, Option, none, some, List, [], ◌∷◌, Text, codes,
  ◌==◌, Bool-cases, inl, inr, if◌then◌else◌,
}
use snippets_llvm.Outcome.{ok}
use snippets_llvm.Llvm.{
  Ir, is_integer_ty, is_pointer_ty, element_type, cast_pointer, dyn_cast_pointer,
}
use snippets_llvm.Utils.Pointers.{get_pointed_type}
use snippets_llvm.PosixMain.{MainEditor, check_params, posixize, posixize_main, posix_main_pass}
use snippets_llvm.PosixMain.Laws.{IsMainEditor}
use snippets_llvm.PosixMain.Moves.{replace_main-end}
use snippets_llvm.Dump.Printing.{dump_pass_kind}

module _ (ir : Ir) (ed : MainEditor ir) (laws : IsMainEditor ir ed) where
  open ed use {Module, Fn, params, get_function, bit_width}

  -- A type of characters, and a pointer to pointers to them.
  abbrev pub is_char : Option ir.Ty → Bool
  is_char none = false
  is_char (some c) = is_integer_ty ir c && bit_width c == 8

  abbrev pub is_char_ptr : Option ir.Ty → Bool
  is_char_ptr none = false
  is_char_ptr (some p) = is_pointer_ty ir p && is_char (ir.pointee p)

  -- The parameters of a `main` that the pass takes: none, if it is not used, or an integer and a
  -- pointer to pointers to characters.
  abbrev pub is_taken : Bool → List ir.Ty → Bool
  is_taken used [] = if used then false else true
  is_taken used (a ∷ []) = false
  is_taken used (a ∷ b ∷ []) =
      is_integer_ty ir a && (is_pointer_ty ir b && is_char_ptr (ir.pointee b))
  is_taken used (a ∷ b ∷ c ∷ ts) = false

  abbrev pub has_taken_main : Module → Option Fn → Bool
  has_taken_main m none = true
  has_taken_main m (some f) = is_taken (laws.is_used m f) (params m f)

  check_params-end :
      (used : Bool) (a b : ir.Ty)
      → ((check_params ir ed (a ∷ b ∷ [])).end ≡ ok tt) ↔ (is_taken used (a ∷ b ∷ []) ≡ true)
  unfolding check_params get_pointed_type element_type cast_pointer dyn_cast_pointer
  check_params-end used a b = ground arith

  posixize-end :
      (m : Module) (o : Option Fn)
      → get_function m (codes "main") ≡ o
      → ((r : Bool × Module) × ((posixize ir ed m o).end ≡ ok r)) ↔ (has_taken_main m o ≡ true)
  unfolding posixize
  posixize-end m none is_main = (λ h. refl, λ h. (_, refl))
  posixize-end m (some f) is_main = by_params (params m f) refl
    where
      by_params :
          (ts : List ir.Ty)
          → params m f ≡ ts
          → ((r : Bool × Module) × ((posixize ir ed m (some f)).end ≡ ok r))
            ↔ (is_taken (laws.is_used m f) (params m f) ≡ true)
      by_params [] e = elim (Bool-cases (laws.is_used m f)) [
        | inl u ↦ rw (e, replace_main-end ir ed laws m f is_main, u) (λ (r, h). cc, λ h. cc)
        | inr u ↦ rw (e, replace_main-end ir ed laws m f is_main, u) (λ h. refl, λ h. (_, refl))
      ]
      by_params (a ∷ []) e = rw e (λ (r, h). cc, λ h. cc)
      by_params (a ∷ b ∷ []) e = rw e (
        λ (r, h). ground (arith, check_params-end (laws.is_used m f) a b),
        λ h. ((false, m), ground (arith, check_params-end (laws.is_used m f) a b)),
      )
      by_params (a ∷ b ∷ c ∷ ts) e = ground (arith, e)

  -- The pass returns exactly if the module has no `main`, or one without parameters that is used
  -- nowhere, or one with an integer and a pointer to pointers to integers of 8 bits.
  pub posix_main_pass_returns :
      (pass_name pass_id : Text) (m : Module)
      → ((r : Bool × Module) × ((posix_main_pass ir ed pass_name pass_id m).end ≡ ok r))
        ↔ (has_taken_main m (get_function m (codes "main")) ≡ true)
  unfolding posix_main_pass dump_pass_kind posixize_main
  posix_main_pass_returns pass_name pass_id m = posixize-end m (get_function m (codes "main")) refl
