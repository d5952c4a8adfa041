-- ===== src/CountBb/Setup/Preserves.antt =====
-- That the counting leaves alone what the rest of the program works on.
use mathlib.Core.List.{Memᴰ}
use mathlib.Core.List.Memᴰ
use snippets_llvm.Base.{some, List, ◌≡◌, ◌≢◌}
use snippets_llvm.CountBb.{Editor, load, add_const, store, call_with_fn}
use snippets_llvm.CountBb.Visits.{IsEditor}
use snippets_llvm.CountBb.Runs.{Machine}
use snippets_llvm.CountBb.Setup.{IsSetupEditor}
use snippets_llvm.CountBb.Setup.Extends.{counted}
use snippets_llvm.CountBb.Setup.Totals.{new_counter_of}

module _ (e : Editor) (laws : IsEditor e) (setups : IsSetupEditor e laws)
    (machine : Machine e laws) where
  open e use {Module, Fn, Block, Inst, Global, insts, terminator}
  open machine use {State, mem, step}

  -- States that the instructions of a module, which do not know the new counter, cannot tell apart:
  -- all other globals hold the same in them; the instructions do the same in them; and each
  -- instruction of the counting, and a call that passes a function to another one, leads to such a
  -- state.
  pub record IsBlind (m : Module) : Type 1 where
    pub Alike : State → State → Type 0
    pub alike_refl : (s : State) → Alike s s
    pub alike_trans : (s t u : State) → Alike s t → Alike t u → Alike s u
    pub alike_mem :
        (s t : State) (h : Global)
        → Alike s t
        → h ≢ new_counter_of e laws setups machine m
        → mem s h ≡ mem t h
    pub old_step :
        (b : Block) (i : Inst) (s t : State)
        → Memᴰ b (counted e laws setups m)
        → Memᴰ i (insts m b)
        → Alike s t
        → Alike (step i s) (step i t)
    pub load_step :
        (i : Inst) (s : State)
        → laws.operation i ≡ some (load (new_counter_of e laws setups machine m))
        → Alike s (step i s)
    pub add_step :
        (i x : Inst) (s : State) → laws.operation i ≡ some (add_const x 1) → Alike s (step i s)
    pub store_step :
        (i x : Inst) (s : State)
        → laws.operation i ≡ some (store x (new_counter_of e laws setups machine m))
        → Alike s (step i s)
    pub call_step :
        (i : Inst) (f h : Fn) (s : State)
        → laws.operation i ≡ some (call_with_fn f h)
        → Alike s (step i s)
