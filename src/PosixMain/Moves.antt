-- ===== src/PosixMain/Moves.antt =====
-- What the pass does to `main`.
use mathlib.Core.List.{Memᴰ, append-nil}
use snippets_llvm.Base.{
  ◌≡◌, ◌≢◌, ◌↔◌, ◌⊎◌, inl, inr, refl, sym, ap, subst, ◌∙◌, false, some, [], ◌∷◌, ◌++◌, codes,
  Option-cases, Bool-cases, if◌then◌else◌,
}
use snippets_llvm.Outcome.{ok, fault, assertion}
use snippets_llvm.Llvm.{Ir}
use snippets_llvm.PosixMain.{MainEditor, replace_main}
use snippets_llvm.PosixMain.Laws.{Kept, IsNamed, IsMainEditor}

module _ (ir : Ir) (ed : MainEditor ir) (laws : IsMainEditor ir ed) where
  open ed use {
    Module, Fn, functions, fn_name, params, linkage, attributes, blocks, get_function, set_name,
    int_ty, argv_ty, create_function, set_attributes, splice, erase_from_parent,
  }

  Kept-trans : (m n k : Module) (f : Fn) → Kept ir ed m n f → Kept ir ed n k f → Kept ir ed m k f
  Kept-trans m n k f p q = record {
    params = q.params ∙ p.params;
    linkage = q.linkage ∙ p.linkage;
    attributes = q.attributes ∙ p.attributes;
    blocks = q.blocks ∙ p.blocks;
  }

  -- What the pass leaves of a module `m` with the function `main`.
  pub record Replaced (m : Module) (main : Fn) (n : Module) : Type 0 where
    pub new : Fn
    pub is_main : get_function n (codes "main") ≡ some new
    pub params_eq : params n new ≡ int_ty ∷ argv_ty ∷ []
    pub linkage_eq : linkage n new ≡ linkage m main
    pub attributes_eq : attributes n new ≡ attributes m main
    pub blocks_eq : blocks n new ≡ blocks m main
    pub functions_iff :
        (g : Fn) → Memᴰ g (functions n) ↔ ((g ≡ new) ⊎ (Memᴰ g (functions m) × (g ≢ main)))
    pub others :
        (g : Fn) → Memᴰ g (functions m) → g ≢ main → (fn_name n g ≡ fn_name m g) × Kept ir ed m n g

  module _ (m : Module) (main : Fn) (is_main : get_function m (codes "main") ≡ some main) where
    -- The module after each step.
    abbrev pub renamed : Module
    renamed = set_name m main (codes "old_main")

    abbrev pub created : Module × Fn
    created = create_function renamed (int_ty ∷ argv_ty ∷ []) (linkage renamed main) (codes "main")

    abbrev pub attributed : Module
    attributed = set_attributes created.0 created.1 (attributes created.0 main)

    abbrev pub spliced : Module
    spliced = splice attributed created.1 main

    abbrev pub erased : Module
    erased = laws.erased spliced main

    in_renamed : (g : Fn) → Memᴰ g (functions m) → Memᴰ g (functions renamed)
    in_renamed g h =
        subst (λ fs. Memᴰ g fs) (sym (laws.rename_functions m main (codes "old_main"))) h

    old_in : Memᴰ main (functions m)
    old_in = (laws.found m (codes "main") main is_main).0

    new_apart : (g : Fn) → Memᴰ g (functions m) → created.1 ≢ g
    new_apart g h e =
        laws.create_new renamed _ _ _
          (subst (λ f. Memᴰ f (functions renamed)) (sym e) (in_renamed g h))

    old_used : laws.is_used spliced main ≡ laws.is_used m main
    old_used =
        laws.splice_used attributed created.1 main main
        ∙ laws.set_used created.0 created.1 main (attributes created.0 main)
        ∙ laws.create_used renamed _ _ _ main (in_renamed main old_in)
        ∙ laws.rename_used m main main (codes "old_main")

    -- The assertion on erasing holds exactly if nothing uses the old function.
    pub replace_main-end :
        replace_main ir ed m main ≡ (if laws.is_used m main then fault assertion else ok erased)
    unfolding replace_main
    replace_main-end = elim (Bool-cases (laws.is_used m main)) [
      | inl u ↦ rw u (
          laws.erase_used spliced main
            (laws.splice_from attributed created.1 main (new_apart main old_in)) (old_used ∙ u))
      | inr u ↦ rw u (laws.erase_unused spliced main (old_used ∙ u))
    ]

    -- The old function is the only one called `main`.
    only_main :
        IsNamed ir ed m → (g : Fn) → Memᴰ g (functions m) → fn_name m g ≡ codes "main" → g ≡ main
    only_main named g h e =
        named g main h old_in (e ∙ sym (laws.found m (codes "main") main is_main).1)

    functions_erased :
        (g : Fn)
        → Memᴰ g (functions erased) ↔ ((g ≡ created.1) ⊎ (Memᴰ g (functions m) × (g ≢ main)))
    functions_erased g = (forth, back)
      where
        same : functions spliced ≡ functions created.0
        same = laws.splice_functions attributed created.1 main ∙ laws.set_functions created.0 _ _

        forth : Memᴰ g (functions erased) → (g ≡ created.1) ⊎ (Memᴰ g (functions m) × (g ≢ main))
        forth h =
            let (there, ne) = (laws.erase_functions spliced main g).0 h in
            elim ((laws.create_functions renamed _ _ _ g).0 (subst (λ fs. Memᴰ g fs) same there)) [
              | inl e ↦ inl e
              | inr old ↦ inr (
                subst (λ fs. Memᴰ g fs) (laws.rename_functions m main (codes "old_main")) old,
                ne,
              )
            ]

        back : (g ≡ created.1) ⊎ (Memᴰ g (functions m) × (g ≢ main)) → Memᴰ g (functions erased)
        back (inl e) = (laws.erase_functions spliced main g).1 (
          subst (λ fs. Memᴰ g fs) (sym same) ((laws.create_functions renamed _ _ _ g).1 (inl e)),
          λ p. new_apart main old_in (sym e ∙ p),
        )
        back (inr (h, ne)) = (laws.erase_functions spliced main g).1 (
          subst (λ fs. Memᴰ g fs) (sym same)
              ((laws.create_functions renamed _ _ _ g).1 (inr (in_renamed g h))),
          ne,
        )

    others_erased :
        (g : Fn)
        → Memᴰ g (functions m)
        → g ≢ main
        → (fn_name erased g ≡ fn_name m g) × Kept ir ed m erased g
    others_erased g h ne =
        let apart : created.1 ≢ g = new_apart g h in
        let (n2, k2) =
          laws.create_other renamed (int_ty ∷ argv_ty ∷ []) (linkage renamed main) (codes "main") g
            (in_renamed g h) in
        let (n5, k5) = laws.erase_other spliced main g ne in
        let ne' : main ≢ g = λ p. ne (sym p) in
        (
          n5
              ∙ laws.splice_name attributed created.1 main g
              ∙ laws.set_name_kept created.0 created.1 g _
              ∙ n2
              ∙ laws.rename_other m main g (codes "old_main") ne',
          Kept-trans m renamed erased g (laws.rename_kept m main g (codes "old_main")) (
              Kept-trans renamed created.0 erased g k2 (
                Kept-trans created.0 attributed erased g
                  (laws.set_other created.0 created.1 g _ apart)
                  (Kept-trans attributed spliced erased g
                    (laws.splice_other attributed created.1 main g apart ne') k5))),
        )

    named_main :
        IsNamed ir ed m
        → laws.has_name m (codes "old_main") ≡ false
        → fn_name erased created.1 ≡ codes "main"
    named_main named free =
        (laws.erase_other spliced main created.1 (new_apart main old_in)).0
        ∙ laws.splice_name attributed created.1 main created.1
        ∙ laws.set_name_kept created.0 created.1 created.1 _
        ∙ laws.create_name renamed _ _ _ (
            laws.rename_frees m main (codes "old_main") (codes "main") named is_main free
              (λ p. cc p))

    main_erased :
        IsNamed ir ed m
        → laws.has_name m (codes "old_main") ≡ false
        → get_function erased (codes "main") ≡ some created.1
    main_erased named free = elim (Option-cases (get_function erased (codes "main"))) [
      | inl e ↦ absurd (
          laws.missing erased (codes "main") created.1 e ((functions_erased created.1).1 (inl refl))
            (named_main named free))
      | inr (g, e) ↦
          let (there, name) = laws.found erased (codes "main") g e in
          elim ((functions_erased g).0 there) [
            | inl p ↦ e ∙ ap some p
            | inr (h, ne) ↦ absurd (ne (only_main named g h (sym (others_erased g h ne).0 ∙ name)))
          ]
    ]

    pub erased-Replaced :
        IsNamed ir ed m → laws.has_name m (codes "old_main") ≡ false → Replaced m main erased
    erased-Replaced named free =
        let apart = new_apart main old_in in
        let (p2, l2, b2) =
          laws.create_self renamed (int_ty ∷ argv_ty ∷ []) (linkage renamed main) (codes "main") in
        let (p3, l3, a3, b3) = laws.set_self created.0 created.1 (attributes created.0 main) in
        let (p4, l4, a4, b4) = laws.splice_self attributed created.1 main apart in
        let k5 = (laws.erase_other spliced main created.1 apart).1 in
        let k1 = laws.rename_kept m main main (codes "old_main") in
        let k2 =
          (laws.create_other renamed (int_ty ∷ argv_ty ∷ []) (linkage renamed main) (codes "main")
            main (in_renamed main old_in)).1 in
        let k3 = laws.set_other created.0 created.1 main (attributes created.0 main) apart in
        let moved : blocks attributed main ≡ blocks m main = k3.blocks ∙ k2.blocks ∙ k1.blocks in
        record {
          new = created.1;
          is_main = main_erased named free;
          params_eq = k5.params ∙ p4 ∙ p3 ∙ p2;
          linkage_eq = k5.linkage ∙ l4 ∙ l3 ∙ l2 ∙ k1.linkage;
          attributes_eq = k5.attributes ∙ a4 ∙ a3 ∙ k2.attributes ∙ k1.attributes;
          blocks_eq =
              k5.blocks
              ∙ b4
              ∙ ap (λ bs. blocks attributed main ++ bs) (b3 ∙ b2)
              ∙ append-nil (blocks attributed main)
              ∙ moved;
          functions_iff = functions_erased;
          others = others_erased;
        }
