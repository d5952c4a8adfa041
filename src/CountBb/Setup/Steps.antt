-- ===== src/CountBb/Setup/Steps.antt =====
-- The steps of `setup` that leave alone the blocks that are counted.
use mathlib.Core.List.{Memᴰ, append-nil}
use mathlib.Core.List.Memᴰ
use snippets_llvm.Base.{
  Bool, false, some, [], ◌∷◌, ◌++◌, ◌≡◌, ◌≢◌, inl, inr, refl, sym, ap, ◌∙◌, subst, Text, Bool-cases,
}
use snippets_llvm.CountBb.{Editor, FnType, Operation, setup_at_exit, bb_counter}
use snippets_llvm.CountBb.Visits.{IsEditor}
use snippets_llvm.CountBb.Whole.{counted_blocks}
use snippets_llvm.CountBb.Setup.{KeepsCode, IsSetupEditor, IsUsable}
use snippets_llvm.CountBb.Setup.Extends.{
  counted, is_counted, Extends, counted_blocks-append, counted_blocks-cong, in_counted,
}

module _ (e : Editor) (laws : IsEditor e) (setups : IsSetupEditor e laws) where
  open e use {
    Module, Fn, Block, Inst, Global, Constant, functions, fn_name, blocks, insts, terminator,
    get_function, get_global_variable, get_or_insert_function, new_counter, new_text, create_block,
    create_before, create_at_end,
  }

  -- A change that keeps functions, names, instructions and terminators, and the counter.
  pub keeps-Extends :
      (m n : Module)
      → KeepsCode e m n
      → ((g : Global)
          → get_global_variable m bb_counter ≡ some g
          → get_global_variable n bb_counter ≡ some g)
      → Extends e laws setups m n
  keeps-Extends m n k h = record {
    same_blocks =
        ap (counted_blocks e laws n) k.functions
        ∙ counted_blocks-cong e laws setups m n (functions m)
            (λ f i. (ap (λ x. x f) k.fn_name, λ ne. ap (λ x. x f) k.blocks));
    same_insts = λ c i. ap (λ x. x c) k.insts;
    same_terminator = λ c i. ap (λ x. x c) k.terminators;
    same_counter = h;
  }

  -- A function that is asked for is there afterwards, and the other ones are as before.
  pub record Inserted (m : Module) (t : Text) (n : Module) (f : Fn) : Type 0 where
    pub named : fn_name n f ≡ t
    pub is_in : Memᴰ f (functions n)
    pub others :
        (g : Fn)
        → Memᴰ g (functions m)
        → Memᴰ g (functions n) × (fn_name n g ≡ fn_name m g) × (blocks n g ≡ blocks m g)
    pub extends : Extends e laws setups m n

  pub new_function-Inserted :
      (m : Module) (t : Text) (ty : FnType) (no_unwind : Bool)
      → setups.has_name m t ≡ false
      → (f : Fn) × ((get_or_insert_function m t ty no_unwind).1 ≡ some f)
        × Inserted m t (get_or_insert_function m t ty no_unwind).0 f
        × (blocks (get_or_insert_function m t ty no_unwind).0 f ≡ [])
  new_function-Inserted m t ty no_unwind h =
      let n = (get_or_insert_function m t ty no_unwind).0 in
      let (f, is_f, list, named, empty, others) = setups.inserted_new m t ty no_unwind h in
      let (same_insts, same_terminator, same_globals) = setups.inserted_code m t ty no_unwind in
      let declared : counted_blocks e laws n (f ∷ []) ≡ [] =
        elim (Bool-cases (is_counted e laws setups n f)) [
          | inl p ↦ rw p refl
          | inr p ↦ rw (p, empty) refl
        ] in
      (
        f,
        is_f,
        record {
          named = named;
          is_in = subst (Memᴰ f) (sym list) (Memᴰ.append_right (functions m) (Memᴰ.head refl));
          others = λ g i. (
            subst (Memᴰ g) (sym list) (Memᴰ.append_left (f ∷ []) i),
            (others g i).0,
            (others g i).1,
          );
          extends = record {
            same_blocks =
                ap (counted_blocks e laws n) list
                ∙ counted_blocks-append e laws setups n (functions m) (f ∷ [])
                ∙ ap (λ bs. counted_blocks e laws n (functions m) ++ bs) declared
                ∙ append-nil (counted_blocks e laws n (functions m))
                ∙ counted_blocks-cong e laws setups m n (functions m)
                    (λ g i. ((others g i).0, λ ne. (others g i).1));
            same_insts = λ c i. ap (λ x. x c) same_insts;
            same_terminator = λ c i. ap (λ x. x c) same_terminator;
            same_counter = λ g i. ap (λ x. x bb_counter) same_globals ∙ i;
          };
        },
        empty,
      )

  pub usable-Inserted :
      (m : Module) (t : Text) (ty : FnType) (no_unwind : Bool)
      → IsUsable e laws setups m t ty
      → (f : Fn) × ((get_or_insert_function m t ty no_unwind).1 ≡ some f)
        × Inserted m t (get_or_insert_function m t ty no_unwind).0 f
  usable-Inserted m t ty no_unwind (inl h) =
      let (f, is_f, inserted, empty) = new_function-Inserted m t ty no_unwind h in
      (f, is_f, inserted)
  usable-Inserted m t ty no_unwind (inr (f, h, typed)) =
      let same = setups.inserted_old m t ty no_unwind f h typed in
      let (is_in, named) = setups.found m t f h in
      (
        f,
        ap (λ r. r.1) same,
        subst (λ n. Inserted m t n f) (sym (ap (λ r. r.0) same))
            (record {
              named = named;
              is_in = is_in;
              others = λ g i. (i, refl, refl);
              extends = record {
                same_blocks = refl;
                same_insts = λ c i. refl;
                same_terminator = λ c i. refl;
                same_counter = λ g i. i;
              };
            }),
      )

  -- A block in the function that is passed by.
  pub create_block-Extends :
      (m : Module) (t : Text) (f : Fn)
      → fn_name m f ≡ setup_at_exit
      → Extends e laws setups m (create_block m t f).0
  create_block-Extends m t f named =
      let n = (create_block m t f).0 in
      let (list, names, lookup, globals) = setups.block_module m t f in
      let apart : (c : Block) → Memᴰ c (counted e laws setups m) → (create_block m t f).1 ≢ c =
        λ c i p.
          let (g, j, k) = in_counted e laws setups m (functions m) c i in
          setups.block_fresh m t f g j (subst (λ x. Memᴰ x (blocks m g)) (sym p) k) in
      record {
        same_blocks =
            ap (counted_blocks e laws n) list
            ∙ counted_blocks-cong e laws setups m n (functions m) (λ g i. (
              ap (λ x. x g) names,
              λ ne. setups.block_other m t f g (λ p. ne (ap (fn_name m) (sym p) ∙ named)),
            ));
        same_insts = λ c i. (setups.block_elsewhere m t f c (apart c i)).0;
        same_terminator = λ c i. (setups.block_elsewhere m t f c (apart c i)).1;
        same_counter = λ g i. ap (λ x. x bb_counter) globals ∙ i;
      }

  -- An instruction at the end of a block that is not counted.
  pub create_at_end-Extends :
      (m : Module) (o : Operation Inst Fn Global Constant) (n : Text) (b : Block)
      → ¬ Memᴰ b (counted e laws setups m)
      → Extends e laws setups m (create_at_end m o n b).0
  create_at_end-Extends m o n b out =
      let k = (create_at_end m o n b).0 in
      let (list, names, own, lookup, globals) = setups.at_end_module m o n b in
      let apart : (c : Block) → Memᴰ c (counted e laws setups m) → b ≢ c =
        λ c i p. out (subst (λ x. Memᴰ x (counted e laws setups m)) (sym p) i) in
      record {
        same_blocks =
            ap (counted_blocks e laws k) list
            ∙ counted_blocks-cong e laws setups m k (functions m)
                (λ g i. (ap (λ x. x g) names, λ ne. ap (λ x. x g) own));
        same_insts = λ c i. (setups.at_end_elsewhere m o n b c (apart c i)).0;
        same_terminator = λ c i. (setups.at_end_elsewhere m o n b c (apart c i)).1;
        same_counter = λ g i. ap (λ x. x bb_counter) globals ∙ i;
      }
