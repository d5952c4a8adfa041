-- ===== src/CountBb/Runs.antt =====
-- What runs of a module that count-bb has changed count.
use mathlib.Core.List.{Memᴰ}
use mathlib.Core.List.Memᴰ
use snippets_llvm.Base.{
  ℕ, ◌+◌, ◌%◌, ◌^◌, ◌<◌, some, List, [], ◌∷◌, ◌++◌, ◌≡◌, refl, sym, ap, ◌∙◌, arith, length, subst,
}
use snippets_llvm.Outcome.{ok}
use snippets_llvm.Llvm.Laws.{Distinct}
use snippets_llvm.CountBb.{Editor, load, add_const, store, bb_counter, setup, run_on_module}
use snippets_llvm.CountBb.Visits.{IsEditor, Counted, Terminated, Grown}
use snippets_llvm.CountBb.Whole.{counted_blocks, run_on_module-Counts}

abbrev pub word : ℕ
word = 2 ^ 64

-- How instructions change the state of a running program, as far as LLVM's language reference says
-- it of the three that count: `mem` is what a global holds, `val` the result of an instruction.
pub record Machine (e : Editor) (laws : IsEditor e) : Type 1 where
  pub State : Type 0
  pub mem : State → e.Global → ℕ
  pub val : State → e.Inst → ℕ
  pub step : e.Inst → State → State
  pub step_load :
      (i : e.Inst) (g h : e.Global) (s : State)
      → laws.operation i ≡ some (load g)
      → (val (step i s) i ≡ mem s g) × (mem (step i s) h ≡ mem s h)
  pub step_add :
      (i x : e.Inst) (n : ℕ) (h : e.Global) (s : State)
      → laws.operation i ≡ some (add_const x n)
      → (val (step i s) i ≡ (val s x + n) % word) × (mem (step i s) h ≡ mem s h)
  pub step_store :
      (i x : e.Inst) (g : e.Global) (s : State)
      → laws.operation i ≡ some (store x g)
      → mem (step i s) g ≡ val s x

module _ (e : Editor) (laws : IsEditor e) (machine : Machine e laws) where
  open e use {Module, Block, Inst, Global, insts, get_global_variable, functions}
  open machine use {State, mem, val, step, step_load, step_add, step_store}

  -- Instructions in a row, and blocks in a row, such as a run of the program goes through.
  abbrev pub run_insts : List Inst → State → State
  run_insts [] s = s
  run_insts (i ∷ is) s = run_insts is (step i s)

  abbrev pub run_trace : Module → List Block → State → State
  run_trace m [] s = s
  run_trace m (b ∷ bs) s = run_trace m bs (run_insts (insts m b) s)

  -- The instruction leaves the global alone.
  abbrev pub Quiet : Global → Inst → Type 0
  Quiet g i = (s : State) → mem (step i s) g ≡ mem s g

  pub run_insts-append :
      (is js : List Inst) (s : State) → run_insts (is ++ js) s ≡ run_insts js (run_insts is s)
  run_insts-append [] js s = refl
  run_insts-append (i ∷ is) js s = run_insts-append is js (step i s)

  run_insts-Quiet :
      (g : Global) (is : List Inst) (s : State)
      → ((i : Inst) → Memᴰ i is → Quiet g i)
      → mem (run_insts is s) g ≡ mem s g
  run_insts-Quiet g [] s quiet = refl
  run_insts-Quiet g (i ∷ is) s quiet =
      run_insts-Quiet g is (step i s) (λ j h. quiet j (Memᴰ.tail h)) ∙ quiet i (Memᴰ.head refl) s

  -- A block with the counting adds one.
  run_insts-Counted :
      (g : Global) (xs : List Inst) (t : Inst) (is : List Inst) (s : State)
      → Counted e laws g xs t is
      → ((i : Inst) → Memᴰ i (xs ++ (t ∷ [])) → Quiet g i)
      → mem (run_insts is s) g ≡ (mem s g + 1) % word
  run_insts-Counted g xs t is s (old, new, stored, eq, is_load, is_add, is_store) quiet =
      let s0 = run_insts xs s in
      let s1 = step old s0 in
      let s2 = step new s1 in
      let s3 = step stored s2 in
      let before : mem s0 g ≡ mem s g =
        run_insts-Quiet g xs s (λ i h. quiet i (Memᴰ.append_left (t ∷ []) h)) in
      let last : mem (step t s3) g ≡ mem s3 g =
        quiet t (Memᴰ.append_right xs (Memᴰ.head refl)) s3 in
      rw (eq, run_insts-append xs (old ∷ new ∷ stored ∷ t ∷ []) s)
        (last
          ∙ step_store stored new g s2 is_store
          ∙ (step_add new old 1 g s1 is_add).0
          ∙ ap (λ v. (v + 1) % word) ((step_load old g g s0 is_load).0 ∙ before))

  run_trace-counts :
      (m m' : Module) (g : Global) (bs : List Block) (s : State)
      → ((b : Block)
          → Memᴰ b bs
          → Grown e laws g m m' b × ((i : Inst) → Memᴰ i (insts m b) → Quiet g i))
      → mem s g < word
      → mem (run_trace m' bs s) g ≡ (mem s g + length bs) % word
  run_trace-counts m m' g [] s grown small = omega arith
  run_trace-counts m m' g (b ∷ bs) s grown small =
      let ((t, xs, _, hi, counted), quiet) = grown b (Memᴰ.head refl) in
      let one =
        run_insts-Counted g xs t (insts m' b) s counted
          (λ i h. quiet i (subst (Memᴰ i) (sym hi) h)) in
      let rest =
        run_trace-counts m m' g bs (run_insts (insts m' b) s) (λ c h. grown c (Memᴰ.tail h))
          (omega (arith, one)) in
      omega (arith, one, rest)

  -- If `setup` leaves a module with the counter, in which the blocks of the functions not named
  -- `setupAtExit` are distinct, end with their terminators, and hold instructions that leave the
  -- counter alone, then the pass returns a module of which every run through such blocks adds their
  -- number to the counter, modulo 2 ^ 64.
  pub run_on_module-counts_runs :
      (m m1 : Module) (g : Global)
      → setup e m ≡ ok m1
      → get_global_variable m1 bb_counter ≡ some g
      → Distinct (counted_blocks e laws m1 (functions m1))
      → ((b : Block)
          → Memᴰ b (counted_blocks e laws m1 (functions m1))
          → Terminated e laws m1 b × ((i : Inst) → Memᴰ i (insts m1 b) → Quiet g i))
      → (m' : Module) × (run_on_module e m ≡ ok m')
        × ((bs : List Block) (s : State)
            → ((b : Block) → Memᴰ b bs → Memᴰ b (counted_blocks e laws m1 (functions m1)))
            → mem s g < word
            → mem (run_trace m' bs s) g ≡ (mem s g + length bs) % word)
  run_on_module-counts_runs m m1 g h hg d ends =
      let (m', run, (grown, _)) = run_on_module-Counts e laws m m1 g h hg d (λ b i. (ends b i).0) in
      (
        m',
        run,
        λ bs s inside small.
            run_trace-counts m1 m' g bs s (λ b i. (grown b (inside b i), (ends b (inside b i)).1))
              small,
      )
