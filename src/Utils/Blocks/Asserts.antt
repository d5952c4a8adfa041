-- ===== src/Utils/Blocks/Asserts.antt =====
-- `getAssertCallSite` collects the calls of `__assert_fail`, in order.
use mathlib.Core.List.{append-nil, append_assoc}
use snippets_llvm.Base.{
  Bool, true, Option, none, ◌&&◌, some, List, [], ◌∷◌, ◌++◌, ◌≡◌, ◌↔◌, refl, sym, ◌∙◌, arith, codes,
  text_eq_iff, keep, keep-append, flat_map,
}
use snippets_llvm.Llvm.{Ir}
use snippets_llvm.Llvm.Classes.{call_inst}
use snippets_llvm.Utils.Blocks.{is_assert_fail, scan_insts, scan_blocks, get_assert_call_site}

module _ (ir : Ir) where
  open ir use {Value, isa, name, blocks, insts, called_function}

  is_assert_call : Value → Bool
  is_assert_call i = isa call_inst i && is_assert_fail ir (called_function i)

  is_assert_fail_iff :
      (o : Option Value)
      → (is_assert_fail ir o ≡ true)
        ↔ ((f : Value) × (o ≡ some f) × (name f ≡ codes "__assert_fail"))
  unfolding is_assert_fail
  is_assert_fail_iff none = (λ h. cc, λ h. cc (h.1))
  is_assert_fail_iff (some f) = (
    λ h. (f, refl, (text_eq_iff (name f) (codes "__assert_fail")).0 h),
    λ h. (text_eq_iff (name f) (codes "__assert_fail")).1 (cc (h.1, h.2)),
  )

  is_assert_call_iff :
      (i : Value)
      → (is_assert_call i ≡ true) ↔ (
          (isa call_inst i ≡ true)
          × ((f : Value) × (called_function i ≡ some f) × (name f ≡ codes "__assert_fail")))
  unfolding is_assert_call
  is_assert_call_iff i = ground (
    arith,
    (is_assert_fail_iff (called_function i)).0,
    (is_assert_fail_iff (called_function i)).1,
  )

  scan_insts-eq : (calls is : List Value) → scan_insts ir calls is ≡ calls ++ keep is_assert_call is
  unfolding scan_insts is_assert_call
  scan_insts-eq calls [] = sym (append-nil calls)
  scan_insts-eq calls (i ∷ is) = ground (
    arith,
    scan_insts-eq calls is,
    scan_insts-eq (calls ++ (i ∷ [])) is,
    append_assoc calls (i ∷ []) (keep is_assert_call is),
  )

  scan_blocks-eq :
      (calls bs : List Value)
      → scan_blocks ir calls bs ≡ calls ++ keep is_assert_call (flat_map insts bs)
  unfolding scan_blocks
  scan_blocks-eq calls [] = sym (append-nil calls)
  scan_blocks-eq calls (b ∷ bs) =
      scan_blocks-eq (scan_insts ir calls (insts b)) bs
      ∙ simp (scan_insts-eq, append_assoc, keep-append)

  -- The result lists exactly the direct calls of a function named `__assert_fail`, as often as they
  -- stand in the function and in its order.
  pub get_assert_call_site-keep :
      (f : Value)
      → (p : Value → Bool) × ((i : Value)
          → (p i ≡ true) ↔ (
              (isa call_inst i ≡ true)
              × ((g : Value) × (called_function i ≡ some g) × (name g ≡ codes "__assert_fail"))))
        × (get_assert_call_site ir f ≡ keep p (flat_map insts (blocks f)))
  unfolding get_assert_call_site
  get_assert_call_site-keep f = (is_assert_call, is_assert_call_iff, scan_blocks-eq [] (blocks f))
