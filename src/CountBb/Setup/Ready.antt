-- ===== src/CountBb/Setup/Ready.antt =====
-- The modules that `setup` is made for, and what it makes of them.
use mathlib.Core.List.{Memᴰ}
use snippets_llvm.Base.{false, some, List, [], ◌∷◌, ◌≡◌, ◌≢◌, codes}
use snippets_llvm.CountBb.{
  Editor, printf_type, atexit_type, load, call_with_fn, call_with, ret, setup_at_exit, bb_counter,
}
use snippets_llvm.CountBb.Visits.{IsEditor}
use snippets_llvm.CountBb.Setup.{IsSetupEditor, IsUsable}
use snippets_llvm.CountBb.Setup.Extends.{counted}

module _ (e : Editor) (laws : IsEditor e) (setups : IsSetupEditor e laws) where
  open e use {
    Module, Fn, Block, Inst, Global, Constant, fn_name, blocks, insts, terminator, get_function,
    get_global_variable,
  }

  -- `main` has a first instruction, `atexit` and `printf` are functions of the types that are asked
  -- for or no global values at all, and none has the name of the counter or of the new function.
  pub record IsReady (m : Module) : Type 0 where
    pub main : Fn
    pub entry : Block
    pub first : Inst
    pub blocks_after : List Block
    pub insts_after : List Inst
    pub main_is : get_function m (codes "main") ≡ some main
    pub main_blocks : blocks m main ≡ entry ∷ blocks_after
    pub entry_insts : insts m entry ≡ first ∷ insts_after
    pub first_once : ¬ Memᴰ first insts_after
    pub counter_free : setups.has_name m bb_counter ≡ false
    pub handler_free : setups.has_name m setup_at_exit ≡ false
    pub atexit_usable : IsUsable e laws setups m (codes "atexit") atexit_type
    pub printf_usable : IsUsable e laws setups m (codes "printf") printf_type

  -- What a module `n` has in addition to a module `m`: the counter; a first instruction of `main`
  -- that passes a new function to `atexit`; and this function, of one block, which prints the
  -- counter.
  pub record SetUp (m : Module) (entry : Block) (n : Module) : Type 0 where
    pub counter : Global
    pub handler : Fn
    pub atexit : Fn
    pub printf : Fn
    pub body : Block
    pub call : Inst
    pub value : Inst
    pub shown : Inst
    pub last : Inst
    pub format : Constant
    pub counter_new : counter ≡ (e.new_counter m bb_counter 0).1
    pub counter_is : get_global_variable n bb_counter ≡ some counter
    pub same_blocks : counted e laws setups n ≡ counted e laws setups m
    pub same_terminator :
        (c : Block) → Memᴰ c (counted e laws setups m) → terminator n c ≡ terminator m c
    pub same_insts :
        (c : Block) → Memᴰ c (counted e laws setups m) → entry ≢ c → insts n c ≡ insts m c
    pub registers : insts n entry ≡ call ∷ insts m entry
    pub call_is : laws.operation call ≡ some (call_with_fn atexit handler)
    pub body_apart : ¬ Memᴰ body (counted e laws setups n)
    pub handler_blocks : blocks n handler ≡ body ∷ []
    pub body_insts : insts n body ≡ value ∷ shown ∷ last ∷ []
    pub value_is : laws.operation value ≡ some (load counter)
    pub shown_is : laws.operation shown ≡ some (call_with printf format value)
    pub last_is : laws.operation last ≡ some ret
    pub names :
        (fn_name n handler ≡ setup_at_exit)
        × (fn_name n atexit ≡ codes "atexit")
        × (fn_name n printf ≡ codes "printf")
