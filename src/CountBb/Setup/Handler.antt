-- ===== src/CountBb/Setup/Handler.antt =====
-- What `create_atexitCall` leaves of a module.
use mathlib.Core.List.{Memᴰ}
use snippets_llvm.Base.{
  false, some, [], ◌∷◌, ◌++◌, ◌≡◌, inl, inr, refl, sym, ap, ◌∙◌, subst, Text, codes,
}
use snippets_llvm.Outcome.{ok}
use snippets_llvm.CountBb.{
  Editor, FnType, printf_type, load, call_with, ret, setup_at_exit, bb_counter, create_atexit_call,
  get_i8_str_val,
}
use snippets_llvm.CountBb.Visits.{IsEditor}
use snippets_llvm.CountBb.Setup.{KeepsCode, IsSetupEditor, IsUsable}
use snippets_llvm.CountBb.Setup.Extends.{counted, Extends, Extends-trans, in_counted}
use snippets_llvm.CountBb.Setup.Steps.{
  keeps-Extends, Inserted, usable-Inserted, create_block-Extends, create_at_end-Extends,
}

pub IsUsable-same :
    (e : Editor) (laws : IsEditor e) (setups : IsSetupEditor e laws) (m n : e.Module) (t : Text)
    (ty : FnType)
    → setups.has_name n t ≡ setups.has_name m t
    → e.get_function n t ≡ e.get_function m t
    → IsUsable e laws setups m t ty
    → IsUsable e laws setups n t ty
IsUsable-same e laws setups m n t ty q p (inl h) = inl (q ∙ h)
IsUsable-same e laws setups m n t ty q p (inr (f, h, typed)) = inr (f, p ∙ h, typed)

module _ (e : Editor) (laws : IsEditor e) (setups : IsSetupEditor e laws) where
  open e use {
    Module, Fn, Block, Inst, Global, Constant, functions, fn_name, blocks, insts, terminator,
    get_function, get_global_variable, get_or_insert_function, new_counter, new_text,
    get_element_ptr, create_block, create_before, create_at_end,
  }

  -- In the second module the function `f` has one block, which prints the global `g`.
  pub record Fills (m : Module) (f : Fn) (g : Global) (n : Module) : Type 0 where
    pub printf : Fn
    pub body : Block
    pub value : Inst
    pub shown : Inst
    pub last : Inst
    pub format : Constant
    pub extends : Extends e laws setups m n
    pub apart : ¬ Memᴰ body (counted e laws setups n)
    pub own_blocks : blocks n f ≡ body ∷ []
    pub body_insts : insts n body ≡ value ∷ shown ∷ last ∷ []
    pub value_is : laws.operation value ≡ some (load g)
    pub shown_is : laws.operation shown ≡ some (call_with printf format value)
    pub last_is : laws.operation last ≡ some ret
    pub printf_named : fn_name n printf ≡ codes "printf"
    pub names : (h : Fn) → Memᴰ h (functions m) → fn_name n h ≡ fn_name m h

  module _ (m : Module) (f : Fn) (g : Global) (is_in : Memᴰ f (functions m))
      (named : fn_name m f ≡ setup_at_exit) (empty : blocks m f ≡ [])
      (usable : IsUsable e laws setups m (codes "printf") printf_type) where
    -- The module after each step.
    abbrev m1 : Module
    m1 = (create_block m (codes "entry") f).0

    abbrev body : Block
    body = (create_block m (codes "entry") f).1

    abbrev m2 : Module
    m2 = (get_or_insert_function m1 (codes "printf") printf_type false).0

    printf_there :
        (h : Fn) × ((get_or_insert_function m1 (codes "printf") printf_type false).1 ≡ some h)
        × Inserted e laws setups m1 (codes "printf") m2 h
    printf_there = usable-Inserted e laws setups m1 (codes "printf") printf_type false (
        IsUsable-same e laws setups m m1 (codes "printf") printf_type
          (ap (λ x. x (codes "printf")) (setups.block_names m (codes "entry") f))
          (ap (λ x. x (codes "printf")) (setups.block_module m (codes "entry") f).2) usable)

    abbrev printf : Fn
    printf = printf_there.0

    abbrev m3 : Module
    m3 = (create_at_end m2 (load g) (codes "bbValue") body).0

    abbrev value : Inst
    value = (create_at_end m2 (load g) (codes "bbValue") body).1

    abbrev m4 : Module
    m4 = (get_i8_str_val e m3 (codes "%d BB(s) Executed\n") (codes "fmt")).0

    abbrev format : Constant
    format = (get_i8_str_val e m3 (codes "%d BB(s) Executed\n") (codes "fmt")).1

    abbrev m5 : Module
    m5 = (create_at_end m4 (call_with printf format value) [] body).0

    abbrev shown : Inst
    shown = (create_at_end m4 (call_with printf format value) [] body).1

    abbrev m6 : Module
    m6 = (create_at_end m5 ret [] body).0

    keeps4 : KeepsCode e m3 m4
    unfolding get_i8_str_val
    keeps4 = setups.text_keeps m3 (codes "%d BB(s) Executed\n") (codes "fmt")

    extends1 : Extends e laws setups m m1
    extends1 = create_block-Extends e laws setups m (codes "entry") f named

    extends2 : Extends e laws setups m m2
    extends2 = Extends-trans e laws setups m m1 m2 extends1 printf_there.2.extends

    -- The new block is none of those that are counted.
    apart : (n : Module) → Extends e laws setups m n → ¬ Memᴰ body (counted e laws setups n)
    apart n x h =
        let (k, i, j) =
          in_counted e laws setups m (functions m) body (subst (Memᴰ body) x.same_blocks h) in
        setups.block_fresh m (codes "entry") f k i j

    extends3 : Extends e laws setups m m3
    extends3 =
        Extends-trans e laws setups m m2 m3 extends2 (
          create_at_end-Extends e laws setups m2 (load g) (codes "bbValue") body
            (apart m2 extends2))

    extends4 : Extends e laws setups m m4
    unfolding get_i8_str_val
    extends4 = Extends-trans e laws setups m m3 m4 extends3 (
        keeps-Extends e laws setups m3 m4 keeps4 (λ k h.
          setups.text_globals m3 (codes "%d BB(s) Executed\n") (codes "fmt") bb_counter k h))

    extends5 : Extends e laws setups m m5
    extends5 = Extends-trans e laws setups m m4 m5 extends4 (
        create_at_end-Extends e laws setups m4 (call_with printf format value) [] body
          (apart m4 extends4))

    extends6 : Extends e laws setups m m6
    extends6 =
        Extends-trans e laws setups m m5 m6 extends5
          (create_at_end-Extends e laws setups m5 ret [] body (apart m5 extends5))

    -- What is written at the end of the new block.
    insts3 : insts m3 body ≡ value ∷ []
    insts3 =
        (setups.at_end_created m2 (load g) (codes "bbValue") body).1
        ∙ ap (λ is. is ++ (value ∷ []))
            (ap (λ x. x body) (setups.inserted_code m1 (codes "printf") printf_type false).0
              ∙ setups.block_empty m (codes "entry") f)

    insts5 : insts m5 body ≡ value ∷ shown ∷ []
    insts5 =
        (setups.at_end_created m4 (call_with printf format value) [] body).1
        ∙ ap (λ is. is ++ (shown ∷ [])) (ap (λ x. x body) keeps4.insts ∙ insts3)

    names6 : (h : Fn) → fn_name m6 h ≡ fn_name m2 h
    names6 h =
        ap (λ x. x h) (setups.at_end_module m5 ret [] body).1
        ∙ ap (λ x. x h) (setups.at_end_module m4 (call_with printf format value) [] body).1
        ∙ ap (λ x. x h) keeps4.fn_name
        ∙ ap (λ x. x h) (setups.at_end_module m2 (load g) (codes "bbValue") body).1

    blocks6 : blocks m6 f ≡ blocks m2 f
    blocks6 =
        ap (λ x. x f) (setups.at_end_module m5 ret [] body).2
        ∙ ap (λ x. x f) (setups.at_end_module m4 (call_with printf format value) [] body).2
        ∙ ap (λ x. x f) keeps4.blocks
        ∙ ap (λ x. x f) (setups.at_end_module m2 (load g) (codes "bbValue") body).2

    in1 : (h : Fn) → Memᴰ h (functions m) → Memᴰ h (functions m1)
    in1 h i = subst (Memᴰ h) (sym (setups.block_module m (codes "entry") f).0) i

    pub create_atexit_call-Fills :
        (n : Module) × (create_atexit_call e m f g ≡ ok n) × Fills m f g n
    unfolding create_atexit_call get_i8_str_val
    create_atexit_call-Fills = (
      m6,
      rw (printf_there.1) refl,
      record {
        printf = printf;
        body = body;
        value = value;
        shown = shown;
        last = (create_at_end m5 ret [] body).1;
        format = format;
        extends = extends6;
        apart = apart m6 extends6;
        own_blocks =
            blocks6
            ∙ (printf_there.2.others f (in1 f is_in)).2
            ∙ setups.block_own m (codes "entry") f
            ∙ ap (λ bs. bs ++ (body ∷ [])) empty;
        body_insts =
            (setups.at_end_created m5 ret [] body).1
            ∙ ap (λ is. is ++ ((create_at_end m5 ret [] body).1 ∷ [])) insts5;
        value_is = (setups.at_end_created m2 (load g) (codes "bbValue") body).0;
        shown_is = (setups.at_end_created m4 (call_with printf format value) [] body).0;
        last_is = (setups.at_end_created m5 ret [] body).0;
        printf_named = names6 printf ∙ printf_there.2.named;
        names = λ h i.
            names6 h
            ∙ (printf_there.2.others h (in1 h i)).1
            ∙ ap (λ x. x h) (setups.block_module m (codes "entry") f).1;
      },
    )
