-- ===== src/CountBb/Setup/Instruments.antt =====
-- The pass on a whole module, `setup` included.
use mathlib.Core.List.{Memᴰ}
use snippets_llvm.Base.{some, List, [], ◌∷◌, ◌++◌, ◌≡◌, ◌≢◌, sym, ap, ◌∙◌, subst, codes}
use snippets_llvm.CountBb.{Editor, load, call_with_fn, call_with, ret, setup_at_exit, bb_counter}
use snippets_llvm.CountBb.Visits.{IsEditor, Terminated, Grown, Counted}
use snippets_llvm.CountBb.Setup.{IsSetupEditor}
use snippets_llvm.CountBb.Setup.Extends.{counted}
use snippets_llvm.CountBb.Setup.Ready.{IsReady, SetUp}

module _ (e : Editor) (laws : IsEditor e) (setups : IsSetupEditor e laws) where
  open e use {
    Module, Fn, Block, Inst, Global, Constant, functions, fn_name, blocks, insts, terminator,
  }

  -- What the pass makes of a module `m` whose `main` begins with the block `entry`: all blocks count
  -- themselves, `entry` first passes a function to `atexit`, and this one prints the counter.
  pub record Instrumented (m : Module) (entry : Block) (n : Module) : Type 0 where
    pub counter : Global
    pub counter_new : counter ≡ (e.new_counter m bb_counter 0).1
    pub handler : Fn
    pub atexit : Fn
    pub printf : Fn
    pub body : Block
    pub call : Inst
    pub value : Inst
    pub shown : Inst
    pub last : Inst
    pub format : Constant
    pub counts :
        (b : Block) → Memᴰ b (counted e laws setups m) → entry ≢ b → Grown e laws counter m n b
    pub entry_counts :
        (t : Inst) × (xs : List Inst) × (terminator m entry ≡ some t)
        × (insts m entry ≡ xs ++ (t ∷ []))
        × Counted e laws counter (call ∷ xs) t (insts n entry)
    pub call_is : laws.operation call ≡ some (call_with_fn atexit handler)
    pub handler_blocks : blocks n handler ≡ body ∷ []
    pub body_insts : insts n body ≡ value ∷ shown ∷ last ∷ []
    pub value_is : laws.operation value ≡ some (load counter)
    pub shown_is : laws.operation shown ≡ some (call_with printf format value)
    pub last_is : laws.operation last ≡ some ret
    pub names :
        (fn_name n handler ≡ setup_at_exit)
        × (fn_name n atexit ≡ codes "atexit")
        × (fn_name n printf ≡ codes "printf")

  module _ (m : Module) (ready : IsReady e laws setups m)
      (ends : (b : Block) → Memᴰ b (counted e laws setups m) → Terminated e laws m b) where
    open ready use {entry}

    -- After `setup` the blocks still end with their terminators.
    entry_ends :
        (n : Module) (s : SetUp e laws setups m entry n)
        → Memᴰ entry (counted e laws setups m)
        → (t : Inst) × (xs : List Inst) × (terminator m entry ≡ some t)
          × (insts m entry ≡ xs ++ (t ∷ []))
          × (terminator n entry ≡ some t)
          × (insts n entry ≡ (s.call ∷ xs) ++ (t ∷ []))
    entry_ends n s i =
        let (t, xs, ht, hi) = ends entry i in
        (t, xs, ht, hi, s.same_terminator entry i ∙ ht, s.registers ∙ ap (λ is. s.call ∷ is) hi)

    pub still_ends :
        (n : Module) (s : SetUp e laws setups m entry n) (b : Block)
        → Memᴰ b (counted e laws setups m)
        → Terminated e laws n b
    still_ends n s b i = elim (setups.block_eq entry b) [
      | yes p ↦
          let (t, xs, _, _, ht, hi) =
            entry_ends n s (subst (λ c. Memᴰ c (counted e laws setups m)) (sym p) i) in
          subst (Terminated e laws n) p (t, s.call ∷ xs, ht, hi)
      | no ne ↦
          let (t, xs, ht, hi) = ends b i in
          (t, xs, s.same_terminator b i ∙ ht, s.same_insts b i ne ∙ hi)
    ]
