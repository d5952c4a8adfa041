-- ===== src/Utils/Visits.antt =====
-- include/LLUtils.hh, `visitBB`.
pub mod Lines
use snippets_llvm.Base.{Bool, true, false, List, [], ◌∷◌, ◌++◌, Text, codes, if◌then◌else◌}
use snippets_llvm.Errs.{Run, pure, write, ◌>>=◌, ◌>>◌}
use snippets_llvm.Llvm.{Ir}

module _ (ir : Ir) where
  open ir use {Value, insts, print_value}

  -- The loop over the instructions, with what the callback writes.
  unfoldable pub visit_insts : (Value → Run Bool) → List Value → Run (Unit {0})
  visit_insts cb [] = pure tt
  visit_insts cb (i ∷ is) = do
    meets ← cb i
    if meets then write (print_value i ++ codes " meets cb requirement\n") else pure tt
    visit_insts cb is

  unfoldable pub visit_bb : Value → (Value → Run Bool) → Run (Unit {0})
  visit_bb b cb = visit_insts cb (insts b)
