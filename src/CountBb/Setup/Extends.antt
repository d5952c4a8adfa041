-- ===== src/CountBb/Setup/Extends.antt =====
-- Changes of a module that leave alone the blocks that are counted.
use mathlib.Core.List.{Memᴰ, append_assoc}
use mathlib.Core.List.Memᴰ
use snippets_llvm.Base.{
  Bool, some, List, [], ◌∷◌, ◌++◌, ◌≡◌, ◌≢◌, inl, inr, refl, sym, ap, ◌∙◌, subst, text_eq,
  text_eq_iff, Bool-cases, Memᴰ-cons,
}
use snippets_llvm.CountBb.{Editor, setup_at_exit, bb_counter}
use snippets_llvm.CountBb.Visits.{IsEditor}
use snippets_llvm.CountBb.Whole.{counted_blocks}
use snippets_llvm.CountBb.Setup.{IsSetupEditor}

module _ (e : Editor) (laws : IsEditor e) (setups : IsSetupEditor e laws) where
  open e use {
    Module, Fn, Block, Inst, Global, Constant, functions, fn_name, blocks, insts, terminator,
    get_function, get_global_variable, get_or_insert_function, new_counter, new_text, create_block,
    create_before, create_at_end,
  }

  -- The blocks that the pass counts.
  abbrev pub counted : Module → List Block
  counted m = counted_blocks e laws m (functions m)

  abbrev pub is_counted : Module → Fn → Bool
  is_counted m f = text_eq (fn_name m f) setup_at_exit

  -- The second module has the same blocks to count, with the same instructions, and keeps the
  -- counter.
  pub record Extends (m n : Module) : Type 0 where
    pub same_blocks : counted n ≡ counted m
    pub same_insts : (c : Block) → Memᴰ c (counted m) → insts n c ≡ insts m c
    pub same_terminator : (c : Block) → Memᴰ c (counted m) → terminator n c ≡ terminator m c
    pub same_counter :
        (g : Global)
        → get_global_variable m bb_counter ≡ some g
        → get_global_variable n bb_counter ≡ some g

  pub Extends-trans : (m n k : Module) → Extends m n → Extends n k → Extends m k
  Extends-trans m n k p q = record {
    same_blocks = q.same_blocks ∙ p.same_blocks;
    same_insts = λ c h. q.same_insts c (subst (Memᴰ c) (sym p.same_blocks) h) ∙ p.same_insts c h;
    same_terminator =
        λ c h. q.same_terminator c (subst (Memᴰ c) (sym p.same_blocks) h) ∙ p.same_terminator c h;
    same_counter = λ g h. q.same_counter g (p.same_counter g h);
  }

  pub counted_blocks-append :
      (m : Module) (fs gs : List Fn)
      → counted_blocks e laws m (fs ++ gs)
        ≡ counted_blocks e laws m fs ++ counted_blocks e laws m gs
  counted_blocks-append m [] gs = refl
  counted_blocks-append m (f ∷ fs) gs = elim (Bool-cases (is_counted m f)) [
    | inl p ↦ rw p (counted_blocks-append m fs gs)
    | inr p ↦
        rw (p, counted_blocks-append m fs gs)
          (sym
            (append_assoc (blocks m f) (counted_blocks e laws m fs) (counted_blocks e laws m gs)))
  ]

  -- Functions that keep their names, and their blocks unless they are passed by, count the same.
  pub counted_blocks-cong :
      (m n : Module) (fs : List Fn)
      → ((f : Fn)
          → Memᴰ f fs
          → (fn_name n f ≡ fn_name m f) × (fn_name m f ≢ setup_at_exit → blocks n f ≡ blocks m f))
      → counted_blocks e laws n fs ≡ counted_blocks e laws m fs
  counted_blocks-cong m n [] h = refl
  counted_blocks-cong m n (f ∷ fs) h =
      let rest = counted_blocks-cong m n fs (λ g i. h g (Memᴰ.tail i)) in
      let (same_name, same) = h f (Memᴰ.head refl) in
      elim (Bool-cases (text_eq (fn_name m f) setup_at_exit)) [
        | inl p ↦ rw (same_name, p) rest
        | inr p ↦
            rw
              (
                same_name,
                p,
                rest,
                same (λ q. cc ((text_eq_iff (fn_name m f) setup_at_exit).1 q, p)),
              )
              refl
      ]

  -- A block that is counted stands in a function.
  pub in_counted :
      (m : Module) (fs : List Fn) (b : Block)
      → Memᴰ b (counted_blocks e laws m fs)
      → (f : Fn) × Memᴰ f fs × Memᴰ b (blocks m f)
  in_counted m [] b h = absurd (Memᴰ.not-nil h)
  in_counted m (f ∷ fs) b h =
      let later : Memᴰ b (counted_blocks e laws m fs)
          → (g : Fn) × Memᴰ g (f ∷ fs) × Memᴰ b (blocks m g) =
        λ i. let (g, j, k) = in_counted m fs b i in (g, Memᴰ.tail j, k) in
      elim (Bool-cases (is_counted m f)) [
        | inl p ↦ later (rw p at h)
        | inr p ↦ elim (Memᴰ.append_cases (blocks m f) (rw p at h)) [
          | inl here ↦ (f, Memᴰ.head refl, here)
          | inr there ↦ later there
        ]
      ]

  pub counted_in :
      (m : Module) (fs : List Fn) (f : Fn) (b : Block)
      → Memᴰ f fs
      → fn_name m f ≢ setup_at_exit
      → Memᴰ b (blocks m f)
      → Memᴰ b (counted_blocks e laws m fs)
  counted_in m [] f b i ne h = absurd (Memᴰ.not-nil i)
  counted_in m (g ∷ fs) f b i ne h = elim (Bool-cases (is_counted m g)) [
    | inl p ↦ elim ((Memᴰ-cons f g fs).0 i) [
      | inl q ↦ absurd (ne (ap (fn_name m) q ∙ (text_eq_iff (fn_name m g) setup_at_exit).0 p))
      | inr later ↦ rw p (counted_in m fs f b later ne h)
    ]
    | inr p ↦ elim ((Memᴰ-cons f g fs).0 i) [
      | inl q ↦ rw p (Memᴰ.append_left _ (subst (λ x. Memᴰ b (blocks m x)) q h))
      | inr later ↦ rw p (Memᴰ.append_right _ (counted_in m fs f b later ne h))
    ]
  ]
