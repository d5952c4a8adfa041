-- ===== src/Templates.antt =====
-- lib/templates: the passes LPass of LPass.cc, FLPass of FLPass.cc and MLPass of MLPass.cc.
use snippets_llvm.Base.{Bool, false, List, [], ◌∷◌, ◌++◌, Text, codes}
use snippets_llvm.Errs.{Run, pure, write, ◌>>◌}
use snippets_llvm.Llvm.{Ir}

module _ (ir : Ir) where
  open ir use {Value, name}

  unfoldable pub print_blocks : List Value → Run (Unit {0})
  print_blocks [] = pure tt
  print_blocks (b ∷ bs) = do write (codes " " ++ name b); print_blocks bs

  -- Of a loop by its blocks
  unfoldable pub run_on_loop : List Value → Run Bool
  run_on_loop bs = do print_blocks bs; pure false

  -- FLPass: `print`, whose arguments are not looked at, and `runOnFunction`.
  -- `__PRETTY_FUNCTION__` is the compiler's.
  unfoldable pub fl_print : Text → Run (Unit {0})
  fl_print pretty_function = write (pretty_function ++ codes "\n")

  unfoldable pub fl_run_on_function : Value → Run Bool
  fl_run_on_function f = pure false

  -- MLPass: `runOnModule`
  unfoldable pub ml_run_on_module : List Value → Run Bool
  ml_run_on_module fs = pure false
