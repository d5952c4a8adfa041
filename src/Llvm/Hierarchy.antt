-- ===== src/Llvm/Hierarchy.antt =====
-- The class hierarchy decided: an object whose own class is `l` is one of each class above `l`.
use snippets_llvm.Base.{
  ℕ, zero, suc, ◌≤◌, ◌<◌, Bool, true, false, Option, none, some, ◌≡◌, ◌≢◌, inl, inr, sym, ap, ◌∙◌,
  arith, Option-cases, Bool-cases,
}
use snippets_llvm.Llvm.Classes.{
  Class, base, constant, global_value, instruction, unary_instruction, cast_inst, cmp_inst,
  call_inst, intrinsic_inst, dbg_info_intrinsic, mem_intrinsic, mem_transfer_inst, argument,
}

unfoldable pub Class-discrete : Discrete Class
Class-discrete = hlevel

-- How many classes stand above.
abbrev pub depth_of : Option Class → ℕ
depth_of none = 0
depth_of (some instruction) = 1
depth_of (some constant) = 1
depth_of (some global_value) = 2
depth_of (some unary_instruction) = 2
depth_of (some cast_inst) = 3
depth_of (some cmp_inst) = 2
depth_of (some call_inst) = 2
depth_of (some intrinsic_inst) = 3
depth_of (some dbg_info_intrinsic) = 4
depth_of (some mem_intrinsic) = 4
depth_of (some mem_transfer_inst) = 5
depth_of (some _) = 1

abbrev pub depth : Class → ℕ
depth c = depth_of (base c)

depth-base : (c d : Class) → base c ≡ some d → depth c ≡ suc (depth d)
depth-base argument d h = cc
depth-base _ d h = ground arith

-- `c` is `l` or stands above it.
unfoldable pub is_above : ℕ → Class → Class → Bool
is_above zero c l = false
is_above (suc f) c l = elim (Class-discrete c l) [
  | yes _ ↦ true
  | no _ ↦ elim (base l) [ none ↦ false | some b ↦ is_above f c b ]
]

-- One step up the hierarchy.
is_above_step :
    (f : ℕ) (c l b : Class) → ¬ (c ≡ l) → base l ≡ some b → is_above (suc f) c l ≡ is_above f c b
unfolding is_above
is_above_step f c l b ne e = ground (arith, Class-discrete c l)

is_above_top : (f : ℕ) (c l : Class) → ¬ (c ≡ l) → base l ≡ none → is_above (suc f) c l ≡ false
unfolding is_above
is_above_top f c l ne e = ground (arith, Class-discrete c l)

is_above_self : (f : ℕ) (c l : Class) → c ≡ l → is_above (suc f) c l ≡ true
unfolding is_above
is_above_self f c l e = ground (arith, Class-discrete c l)

is_above-depth-le : (f : ℕ) (c l : Class) → is_above f c l ≡ true → depth c ≤ depth l
unfolding is_above
is_above-depth-le zero c l h = cc
is_above-depth-le (suc f) c l h = elim (Class-discrete c l) [
  | yes e ↦ rw e (omega arith)
  | no ne ↦ elim (Option-cases (base l)) [
    | inl top ↦ ground arith
    | inr (b, e) ↦ omega (arith, is_above-depth-le f c b (ground arith), depth-base l b e)
  ]
]

-- What stands above another class is less deep.
is_above_strict :
    (f : ℕ) (c l : Class) → ¬ (c ≡ l) → is_above (suc f) c l ≡ true → depth c < depth l
unfolding is_above
is_above_strict f c l ne h = elim (Option-cases (base l)) [
  | inl top ↦ ground (arith, Class-discrete c l)
  | inr (b, e) ↦
      let above = is_above-depth-le f c b (ground (arith, Class-discrete c l)) in
      omega (arith, depth-base l b e)
]

-- With fuel left the base class stands above.
is_above_next : (f : ℕ) (d l : Class) → 0 < f → base l ≡ some d → is_above (suc f) d l ≡ true
unfolding is_above
is_above_next zero d l h e = elim h [ ]
is_above_next (suc f) d l h e = ground (arith, Class-discrete d l, Class-discrete d d)

-- Above a class there is one class of each depth.
is_above_unique :
    (f : ℕ) (c d l : Class)
    → depth c ≡ depth d
    → is_above f c l ≡ true
    → is_above f d l ≡ true
    → c ≡ d
unfolding is_above
is_above_unique zero c d l e hc hd = cc
is_above_unique (suc f) c d l e hc hd = elim (Class-discrete c l) [
  | yes cl ↦ elim (Class-discrete d l) [
    | yes dl ↦ cl ∙ sym dl
    | no ne ↦ absurd (omega (arith, is_above_strict f d l ne hd, ap depth cl))
  ]
  | no ne ↦ elim (Class-discrete d l) [
    | yes dl ↦ absurd (omega (arith, is_above_strict f c l ne hc, ap depth dl))
    | no ne' ↦ elim (Option-cases (base l)) [
      | inl top ↦ cc (is_above_top f c l ne top)
      | inr (b, above) ↦
          is_above_unique f c d b e (sym (is_above_step f c l b ne above) ∙ hc)
            (sym (is_above_step f d l b ne' above) ∙ hd)
    ]
  ]
]

pub is_above-base :
    (f : ℕ) (c d l : Class)
    → depth l < f
    → base c ≡ some d
    → is_above f c l ≡ true
    → is_above f d l ≡ true
unfolding is_above
is_above-base zero c d l h e a = cc
is_above-base (suc f) c d l h e a = elim (Class-discrete c l) [
  | yes cl ↦
      is_above_next f d l (omega (arith, depth-base c d e, ap depth cl)) (ap base (sym cl) ∙ e)
  | no ne ↦ elim (Option-cases (base l)) [
    | inl top ↦ cc (is_above_top f c l ne top)
    | inr (b, above) ↦
        let rest = sym (is_above_step f c l b ne above) ∙ a in
        let up = is_above-base f c d b (omega (arith, depth-base l b above)) e rest in
        elim (Class-discrete d l) [
          | yes dl ↦ is_above_self f d l dl
          | no other ↦ is_above_step f d l b other above ∙ up
        ]
  ]
]

-- Classes with one base, or none, have one depth.
depth-eq_of_base : (c d : Class) → base c ≡ base d → depth c ≡ depth d
depth-eq_of_base c d e = ap depth_of e

pub is_above_disjoint :
    (f : ℕ) (c d l : Class)
    → base c ≡ base d
    → c ≢ d
    → is_above f c l ≡ true
    → is_above f d l ≡ false
is_above_disjoint f c d l e ne h = elim (Bool-cases (is_above f d l)) [
  | inl both ↦ absurd (ne (is_above_unique f c d l (depth-eq_of_base c d e) h both))
  | inr alone ↦ alone
]
