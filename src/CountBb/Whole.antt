-- ===== src/CountBb/Whole.antt =====
-- The pass count-bb on a whole module.
use mathlib.Core.List.{Memᴰ}
use snippets_llvm.Base.{
  ◌⊎◌, subst, some, List, [], ◌∷◌, ◌++◌, ◌≡◌, inl, inr, refl, ap, codes, text_eq, if◌then◌else◌,
  Bool-cases, Option-cases,
}
use snippets_llvm.Outcome.{Outcome, Fault, ok, fault, ◌>>=◌}
use snippets_llvm.Llvm.Laws.{Distinct}
use snippets_llvm.CountBb.{
  Editor, load, add_const, store, setup_at_exit, bb_counter, setup, run_on_basic_block,
  run_on_blocks, run_on_functions, run_on_module,
}
use snippets_llvm.CountBb.Visits.{
  IsEditor, Same, Same-refl, Same-trans, created-Same, Terminated, Counts, run_on_blocks-Counts,
}

-- How a call ends.
Outcome-cases :
    {A : Type 0} (o : Outcome A) → ((a : A) × (o ≡ ok a)) ⊎ ((x : Fault) × (o ≡ fault x))
Outcome-cases (ok a) = inl (a, refl)
Outcome-cases (fault x) = inr (x, refl)

ok-injective : {A : Type 0} (a b : A) → ok a ≡ ok b → a ≡ b
ok-injective a b h = cc

module _ (e : Editor) (laws : IsEditor e) where
  open e use {
    Module, Fn, Block, Inst, Global, insts, terminator, get_global_variable, create_before, blocks,
    fn_name, functions,
  }

  -- The blocks of the functions that are not named `setupAtExit`, in order.
  abbrev pub counted_blocks : Module → List Fn → List Block
  counted_blocks m [] = []
  counted_blocks m (f ∷ fs) =
      let rest = counted_blocks m fs in
      if text_eq (fn_name m f) setup_at_exit then rest else blocks m f ++ rest

  run_on_blocks-append :
      (m : Module) (bs cs : List Block)
      → run_on_blocks e m (bs ++ cs) ≡ run_on_blocks e m bs >>= λ m'. run_on_blocks e m' cs
  unfolding run_on_blocks
  run_on_blocks-append m [] cs = refl
  run_on_blocks-append m (b ∷ bs) cs = elim (Outcome-cases (run_on_basic_block e m b)) [
    | inl (m1, p) ↦ rw p (run_on_blocks-append m1 bs cs)
    | inr (x, p) ↦ rw p refl
  ]

  run_on_basic_block-Same :
      (m m' : Module) (b : Block) → run_on_basic_block e m b ≡ ok m' → Same e m m'
  unfolding run_on_basic_block
  run_on_basic_block-Same m m' b h = elim (Option-cases (get_global_variable m bb_counter)) [
    | inl p ↦ absurd (cc (rw p at h))
    | inr (g, p) ↦
        let t = terminator m b in
        let c1 = create_before m (load g) (codes "old.bb.count") t in
        let c2 = create_before c1.0 (add_const c1.1 1) (codes "new.bb.count") t in
        let c3 = create_before c2.0 (store c2.1 g) [] t in
        subst (Same e m) (ok-injective c3.0 m' (rw p at h)) (
          Same-trans e m c1.0 c3.0 (created-Same e laws m _ _ t) (
            Same-trans e c1.0 c2.0 c3.0 (created-Same e laws c1.0 _ _ t)
              (created-Same e laws c2.0 _ _ t)))
  ]

  pub run_on_blocks-Same :
      (m m' : Module) (bs : List Block) → run_on_blocks e m bs ≡ ok m' → Same e m m'
  unfolding run_on_blocks
  run_on_blocks-Same m m' [] h = subst (Same e m) (ok-injective m m' h) (Same-refl e m)
  run_on_blocks-Same m m' (b ∷ bs) h = elim (Outcome-cases (run_on_basic_block e m b)) [
    | inl (m1, p) ↦
        Same-trans e m m1 m' (run_on_basic_block-Same m m1 b p)
          (run_on_blocks-Same m1 m' bs (rw p at h))
    | inr (x, p) ↦ absurd (cc (rw p at h))
  ]

  -- The loop over functions is the loop over the blocks to be counted, as the names and the blocks
  -- of functions do not change under it.
  pub run_on_functions-eq :
      (m0 m : Module) (fs : List Fn)
      → Same e m0 m
      → run_on_functions e m fs ≡ run_on_blocks e m (counted_blocks m0 fs)
  unfolding run_on_functions run_on_blocks
  run_on_functions-eq m0 m [] same = refl
  run_on_functions-eq m0 m (f ∷ fs) same =
      let name = ap (λ n. n f) same.fn_name in
      let own = ap (λ n. n f) same.blocks in
      elim (Bool-cases (text_eq (fn_name m0 f) setup_at_exit)) [
        | inl p ↦ rw (name, p) (run_on_functions-eq m0 m fs same)
        | inr p ↦
            rw (name, p, own, run_on_blocks-append m (blocks m0 f) (counted_blocks m0 fs))
              (elim (Outcome-cases (run_on_blocks e m (blocks m0 f))) [
                | inl (m1, q) ↦
                    let later = run_on_blocks-Same m m1 (blocks m0 f) q in
                    rw q (run_on_functions-eq m0 m1 fs (Same-trans e m0 m m1 same later))
                | inr (x, q) ↦ rw q refl
              ])
      ]

  -- The pass, behind `setup`: if that leaves a module with the counter, in which the blocks of the
  -- functions not named `setupAtExit` are distinct and end with their terminators, then the pass
  -- returns; each of these blocks has the counting once, directly before its terminator, and the
  -- other blocks are as `setup` left them.
  pub run_on_module-Counts :
      (m m1 : Module) (g : Global)
      → setup e m ≡ ok m1
      → get_global_variable m1 bb_counter ≡ some g
      → Distinct (counted_blocks m1 (functions m1))
      → ((b : Block) → Memᴰ b (counted_blocks m1 (functions m1)) → Terminated e laws m1 b)
      → (m' : Module) × (run_on_module e m ≡ ok m')
        × Counts e laws m1 g (counted_blocks m1 (functions m1)) m'
  unfolding run_on_module
  run_on_module-Counts m m1 g h hg d ends =
      let (m', run, counts) =
        run_on_blocks-Counts e laws m1 (counted_blocks m1 (functions m1)) g hg d ends in
      (m', rw (h, run_on_functions-eq m1 m1 (functions m1) (Same-refl e m1)) run, counts)
