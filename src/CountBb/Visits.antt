-- ===== src/CountBb/Visits.antt =====
-- What the pass count-bb does to the blocks of a module.
use mathlib.Core.List.{Memᴰ, append_assoc}
use mathlib.Core.List.Memᴰ
use snippets_llvm.Base.{
  Option, some, List, [], ◌∷◌, ◌++◌, ◌≡◌, ◌≢◌, inl, inr, refl, sym, ap, subst, ◌∙◌, Text, codes,
  Memᴰ-cons,
}
use snippets_llvm.Outcome.{ok}
use snippets_llvm.Llvm.Laws.{Distinct}
use snippets_llvm.CountBb.{
  Editor, Operation, load, add_const, store, bb_counter, run_on_basic_block, run_on_blocks,
}

-- What LLVM's documentation says of an instruction that is created before another one.
pub record IsEditor (e : Editor) : Type 0 where
  -- what an instruction that was created does
  pub operation : e.Inst → Option (Operation e.Inst e.Fn e.Global e.Constant)
  pub created :
      (m : e.Module) (o : Operation e.Inst e.Fn e.Global e.Constant) (n : Text) (p : Option e.Inst)
      → operation (e.create_before m o n p).1 ≡ some o
  pub same_fn_name :
      (m : e.Module) (o : Operation e.Inst e.Fn e.Global e.Constant) (n : Text) (p : Option e.Inst)
      → e.fn_name (e.create_before m o n p).0 ≡ e.fn_name m
  pub same_blocks :
      (m : e.Module) (o : Operation e.Inst e.Fn e.Global e.Constant) (n : Text) (p : Option e.Inst)
      → e.blocks (e.create_before m o n p).0 ≡ e.blocks m
  pub same_globals :
      (m : e.Module) (o : Operation e.Inst e.Fn e.Global e.Constant) (n : Text) (p : Option e.Inst)
      → e.get_global_variable (e.create_before m o n p).0 ≡ e.get_global_variable m
  pub same_terminator :
      (m : e.Module) (o : Operation e.Inst e.Fn e.Global e.Constant) (n : Text) (p : Option e.Inst)
      → e.terminator (e.create_before m o n p).0 ≡ e.terminator m
  -- Before a terminator: it stands there, and nothing else changes.
  pub before_terminator :
      (m : e.Module) (o : Operation e.Inst e.Fn e.Global e.Constant) (n : Text) (b : e.Block)
      (t : e.Inst) (xs : List e.Inst)
      → e.terminator m b ≡ some t
      → e.insts m b ≡ xs ++ (t ∷ [])
      → e.insts (e.create_before m o n (some t)).0 b
        ≡ xs ++ ((e.create_before m o n (some t)).1 ∷ t ∷ [])
  pub elsewhere :
      (m : e.Module) (o : Operation e.Inst e.Fn e.Global e.Constant) (n : Text) (b c : e.Block)
      (t : e.Inst)
      → e.terminator m b ≡ some t
      → b ≢ c
      → e.insts (e.create_before m o n (some t)).0 c ≡ e.insts m c

-- The two modules differ in the instructions of their blocks only.
pub record Same (e : Editor) (m n : e.Module) : Type 0 where
  pub fn_name : e.fn_name n ≡ e.fn_name m
  pub blocks : e.blocks n ≡ e.blocks m
  pub globals : e.get_global_variable n ≡ e.get_global_variable m
  pub terminators : e.terminator n ≡ e.terminator m

pub Same-refl : (e : Editor) (m : e.Module) → Same e m m
Same-refl e m = record { fn_name = refl; blocks = refl; globals = refl; terminators = refl }

pub Same-trans : (e : Editor) (m n k : e.Module) → Same e m n → Same e n k → Same e m k
Same-trans e m n k s t = record {
  fn_name = t.fn_name ∙ s.fn_name;
  blocks = t.blocks ∙ s.blocks;
  globals = t.globals ∙ s.globals;
  terminators = t.terminators ∙ s.terminators;
}

module _ (e : Editor) (laws : IsEditor e) where
  open e use {
    Module, Fn, Block, Inst, Global, Constant, insts, terminator, get_global_variable,
    create_before, blocks, fn_name,
  }

  -- `is` is `xs` with the counting before the terminator `t`: the counter is loaded, one is added,
  -- and the sum is stored.
  abbrev pub Counted : Global → List Inst → Inst → List Inst → Type 0
  Counted g xs t is =
      (old : Inst) × (new : Inst) × (stored : Inst) × (is ≡ xs ++ (old ∷ new ∷ stored ∷ t ∷ []))
      × (laws.operation old ≡ some (load g))
      × (laws.operation new ≡ some (add_const old 1))
      × (laws.operation stored ≡ some (store new g))

  pub created-Same :
      (m : Module) (o : Operation Inst Fn Global Constant) (n : Text) (p : Option Inst)
      → Same e m (create_before m o n p).0
  created-Same m o n p = record {
    fn_name = laws.same_fn_name m o n p;
    blocks = laws.same_blocks m o n p;
    globals = laws.same_globals m o n p;
    terminators = laws.same_terminator m o n p;
  }

  -- What a call on a block does to the module.
  abbrev Step : Module → Block → Global → Inst → List Inst → Module → Type 0
  Step m b g t xs m' =
      Same e m m' × Counted g xs t (insts m' b) × ((c : Block) → b ≢ c → insts m' c ≡ insts m c)

  run_on_basic_block-Step :
      (m : Module) (b : Block) (g : Global) (t : Inst) (xs : List Inst)
      → get_global_variable m bb_counter ≡ some g
      → terminator m b ≡ some t
      → insts m b ≡ xs ++ (t ∷ [])
      → (m' : Module) × (run_on_basic_block e m b ≡ ok m') × Step m b g t xs m'
  unfolding run_on_basic_block
  run_on_basic_block-Step m b g t xs hg ht hi =
      let c1 = create_before m (load g) (codes "old.bb.count") (some t) in
      let c2 = create_before c1.0 (add_const c1.1 1) (codes "new.bb.count") (some t) in
      let c3 = create_before c2.0 (store c2.1 g) [] (some t) in
      let ht1 =
        ap (λ f. f b) (laws.same_terminator m (load g) (codes "old.bb.count") (some t)) ∙ ht in
      let ht2 =
        ap (λ f. f b) (laws.same_terminator c1.0 (add_const c1.1 1) (codes "new.bb.count") (some t))
        ∙ ht1 in
      let i1 = laws.before_terminator m (load g) (codes "old.bb.count") b t xs ht hi in
      let i2 =
        laws.before_terminator c1.0 (add_const c1.1 1) (codes "new.bb.count") b t
          (xs ++ (c1.1 ∷ [])) ht1 (i1 ∙ sym (append_assoc xs (c1.1 ∷ []) (t ∷ []))) in
      let i3 = laws.before_terminator c2.0 (store c2.1 g) [] b t (xs ++ (c1.1 ∷ c2.1 ∷ [])) ht2 (
        i2
        ∙ append_assoc xs (c1.1 ∷ []) (c2.1 ∷ t ∷ [])
        ∙ sym (append_assoc xs (c1.1 ∷ c2.1 ∷ []) (t ∷ []))) in
      (
        c3.0,
        rw (hg, ht) refl,
        (
          Same-trans e _ _ _ (created-Same m _ _ _)
              (Same-trans e _ _ _ (created-Same c1.0 _ _ _) (created-Same c2.0 _ _ _)),
          (
            c1.1,
            c2.1,
            c3.1,
            i3 ∙ append_assoc xs (c1.1 ∷ c2.1 ∷ []) (c3.1 ∷ t ∷ []),
            laws.created m _ _ _,
            laws.created c1.0 _ _ _,
            laws.created c2.0 _ _ _,
          ),
          λ c ne.
              laws.elsewhere c2.0 _ _ b c t ht2 ne
              ∙ laws.elsewhere c1.0 _ _ b c t ht1 ne
              ∙ laws.elsewhere m _ _ b c t ht ne,
        ),
      )

  -- A block that ends with its terminator.
  abbrev pub Terminated : Module → Block → Type 0
  Terminated m b =
      (t : Inst) × (xs : List Inst) × (terminator m b ≡ some t) × (insts m b ≡ xs ++ (t ∷ []))

  -- A block of the first module that has the counting added in the second.
  abbrev pub Grown : Global → Module → Module → Block → Type 0
  Grown g m m' b =
      (t : Inst) × (xs : List Inst) × (terminator m b ≡ some t)
      × (insts m b ≡ xs ++ (t ∷ []))
      × Counted g xs t (insts m' b)

  -- What the loop over blocks does.
  abbrev pub Counts : Module → Global → List Block → Module → Type 0
  Counts m g bs m' =
      ((b : Block) → Memᴰ b bs → Grown g m m' b)
      × ((c : Block) → ¬ Memᴰ c bs → insts m' c ≡ insts m c)

  Terminated-Same :
      (m n : Module) (c : Block)
      → Same e m n
      → insts n c ≡ insts m c
      → Terminated m c
      → Terminated n c
  Terminated-Same m n c same i (t, xs, ht, hi) =
      (t, xs, ap (λ f. f c) same.terminators ∙ ht, i ∙ hi)

  -- What is grown by a later step from an unchanged block is grown from the start.
  Grown-back :
      (g : Global) (m n k : Module) (c : Block)
      → Same e m n
      → insts n c ≡ insts m c
      → Grown g n k c
      → Grown g m k c
  Grown-back g m n k c same i (t, xs, ht, hi, counted) =
      (t, xs, sym (ap (λ f. f c) same.terminators) ∙ ht, sym i ∙ hi, counted)

  pub run_on_blocks-Counts :
      (m : Module) (bs : List Block) (g : Global)
      → get_global_variable m bb_counter ≡ some g
      → Distinct bs
      → ((b : Block) → Memᴰ b bs → Terminated m b)
      → (m' : Module) × (run_on_blocks e m bs ≡ ok m') × Counts m g bs m'
  unfolding run_on_blocks
  run_on_blocks-Counts m [] g hg d ends = (m, refl, (λ b h. absurd (Memᴰ.not-nil h), λ c h. refl))
  run_on_blocks-Counts m (b ∷ bs) g hg d ends =
      let (t, xs, ht, hi) = ends b (Memᴰ.head refl) in
      let (m1, run, (same, counted, others)) = run_on_basic_block-Step m b g t xs hg ht hi in
      let apart : (c : Block) → Memᴰ c bs → b ≢ c =
        λ c h p. d.0 (subst (λ x. Memᴰ x bs) (sym p) h) in
      let (m2, runs, (grown, rest)) =
        run_on_blocks-Counts m1 bs g (ap (λ f. f bb_counter) same.globals ∙ hg) d.1
          (λ c h. Terminated-Same m m1 c same (others c (apart c h)) (ends c (Memᴰ.tail h))) in
      (
        m2,
        rw run runs,
        (
          λ c h. elim ((Memᴰ-cons c b bs).0 h) [
            | inl p ↦
                subst (Grown g m m2) (sym p)
                  (t, xs, ht, hi, subst (Counted g xs t) (sym (rest b d.0)) counted)
            | inr later ↦ Grown-back g m m1 m2 c same (others c (apart c later)) (grown c later)
          ],
          λ c h. rest c (λ x. h (Memᴰ.tail x)) ∙ others c (λ p. h (Memᴰ.head (sym p))),
        ),
      )
