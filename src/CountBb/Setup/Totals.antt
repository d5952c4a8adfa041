-- ===== src/CountBb/Setup/Totals.antt =====
-- What runs of a module count that the whole pass has changed, `setup` included.
use mathlib.Core.List.{Memᴰ}
use snippets_llvm.Base.{some, List, ◌≡◌}
use snippets_llvm.CountBb.{Editor, call_with_fn, bb_counter}
use snippets_llvm.CountBb.Visits.{IsEditor}
use snippets_llvm.CountBb.Runs.{Machine, Quiet}
use snippets_llvm.CountBb.Setup.{IsSetupEditor}
use snippets_llvm.CountBb.Setup.Extends.{counted}

module _ (e : Editor) (laws : IsEditor e) (setups : IsSetupEditor e laws)
    (machine : Machine e laws) where
  open e use {Module, Fn, Block, Inst, Global, insts}
  open machine use {State, mem}

  -- The counter that the pass creates.
  abbrev pub new_counter_of : Module → Global
  new_counter_of m = (e.new_counter m bb_counter 0).1

  -- The instructions that are there, and a call that passes a function to another one, leave the
  -- new counter alone.
  pub record IsQuiet (m : Module) : Type 0 where
    pub old_quiet :
        (b : Block) (i : Inst)
        → Memᴰ b (counted e laws setups m)
        → Memᴰ i (insts m b)
        → Quiet e laws machine (new_counter_of m) i
    pub call_quiet :
        (i : Inst) (f h : Fn)
        → laws.operation i ≡ some (call_with_fn f h)
        → Quiet e laws machine (new_counter_of m) i
