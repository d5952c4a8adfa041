-- ===== src/CountBb/Setup/Registers.antt =====
-- What `setup` leaves of a module.
use mathlib.Core.List.{Memᴰ}
use snippets_llvm.Base.{true, false, some, [], ◌≡◌, ◌≢◌, refl, sym, ap, ◌∙◌, subst, Text, codes}
use snippets_llvm.CountBb.{Editor, void_type, atexit_type, call_with_fn, setup_at_exit, bb_counter}
use snippets_llvm.CountBb.Visits.{IsEditor}
use snippets_llvm.CountBb.Setup.Handler.{IsUsable-same}
use snippets_llvm.CountBb.Setup.{KeepsCode, IsSetupEditor}
use snippets_llvm.CountBb.Setup.Ready.{IsReady}
use snippets_llvm.CountBb.Setup.Extends.{counted, Extends, counted_in}
use snippets_llvm.CountBb.Setup.Steps.{Inserted, new_function-Inserted, usable-Inserted}

module _ (e : Editor) (laws : IsEditor e) (setups : IsSetupEditor e laws) where
  open e use {
    Module, Fn, Block, Inst, Global, Constant, functions, fn_name, blocks, insts, terminator,
    get_function, get_global_variable, get_or_insert_function, new_counter, new_text,
    get_element_ptr, create_block, create_before, create_at_end,
  }

  module _ (m : Module) (ready : IsReady e laws setups m) where
    open ready use {main, entry, first, blocks_after, insts_after}

    abbrev m1 : Module
    m1 = (new_counter m bb_counter 0).0

    abbrev counter : Global
    counter = (new_counter m bb_counter 0).1

    keeps1 : KeepsCode e m m1
    keeps1 = setups.counter_keeps m bb_counter 0

    named1 : (t : Text) → t ≢ bb_counter → setups.has_name m1 t ≡ setups.has_name m t
    named1 t ne = setups.counter_names m bb_counter t 0 ready.counter_free ne

    abbrev m2 : Module
    m2 = (get_or_insert_function m1 setup_at_exit void_type false).0

    handler_new :
        (f : Fn) × ((get_or_insert_function m1 setup_at_exit void_type false).1 ≡ some f)
        × Inserted e laws setups m1 setup_at_exit m2 f
        × (blocks m2 f ≡ [])
    handler_new =
        new_function-Inserted e laws setups m1 setup_at_exit void_type false
          (named1 setup_at_exit (λ p. cc p) ∙ ready.handler_free)

    abbrev m3 : Module
    m3 = (get_or_insert_function m2 (codes "atexit") atexit_type true).0

    lookup2 : (t : Text) → t ≢ setup_at_exit → get_function m2 t ≡ get_function m t
    lookup2 t ne =
        setups.inserted_others m1 setup_at_exit t void_type false ne
        ∙ ap (λ x. x t) keeps1.get_function

    named2 :
        (t : Text) → t ≢ setup_at_exit → t ≢ bb_counter → setups.has_name m2 t ≡ setups.has_name m t
    named2 t ne nc = setups.inserted_names m1 setup_at_exit t void_type false ne ∙ named1 t nc

    atexit_there :
        (f : Fn) × ((get_or_insert_function m2 (codes "atexit") atexit_type true).1 ≡ some f)
        × Inserted e laws setups m2 (codes "atexit") m3 f
    atexit_there = usable-Inserted e laws setups m2 (codes "atexit") atexit_type true (
        IsUsable-same e laws setups m m2 (codes "atexit") atexit_type
          (named2 (codes "atexit") (λ p. cc p) (λ p. cc p)) (lookup2 (codes "atexit") (λ p. cc p))
          ready.atexit_usable)

    main_in : Memᴰ main (functions m)
    main_in = (setups.found m (codes "main") main ready.main_is).0

    pub entry_counted : Memᴰ entry (counted e laws setups m)
    entry_counted =
        counted_in e laws setups m (functions m) main entry main_in
          (λ p. cc ((setups.found m (codes "main") main ready.main_is).1, p))
          (subst (Memᴰ entry) (sym ready.main_blocks) (Memᴰ.head refl))

    abbrev handler : Fn
    handler = handler_new.0

    abbrev atexit : Fn
    atexit = atexit_there.0

    -- The first instruction of `main` is created.
    abbrev m4 : Module
    m4 = (create_before m3 (call_with_fn atexit handler) [] (some first)).0

    abbrev call : Inst
    call = (create_before m3 (call_with_fn atexit handler) [] (some first)).1
