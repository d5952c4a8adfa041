-- ===== src/Utils/Types/IntegerRelated.antt =====
-- `isIntegerRelatedType` decides which types are integers, pointers to integers, or aggregates of
-- such types.
use mathlib.Core.HLevel.{⊥_prop}
use mathlib.Core.List.{Memᴰ}
use mathlib.Core.List.Memᴰ
use mathlib.Core.Logic.{∥∥₁_elim, ⊎_elim}
use snippets_llvm.Base.{
  ℕ, zero, suc, ◌<◌, Bool, true, false, Option, some, List, [], ◌∷◌, ◌≡◌, ◌↔◌, inl, inr, refl, sym,
  subst, arith, if◌then◌else◌, Bool-cases, Memᴰ-cons,
}
use snippets_llvm.Outcome.{Outcome, ok}
use snippets_llvm.Llvm.{Ir, is_pointer_ty, is_struct_ty, is_array_ty, is_integer_ty}
use snippets_llvm.Llvm.Ids.{
  TypeId, is_struct_id, is_pointer_id, is_array_id, is_integer_id, void_ty_id,
}
use snippets_llvm.Llvm.Laws.{IsNested, HasPointees}
use snippets_llvm.Utils.Types.{
  all_related, points_to_integer, integer_related_in, is_integer_related_type,
}

-- What klee can deal with: "int and int*, or their combination (array/struct)".
pub data IntegerRelated (ir : Ir) : ir.Ty → Type 0 where
  int : {t : ir.Ty} → is_integer_ty ir t ≡ true → IntegerRelated ir t
  pointer :
      {t : ir.Ty} (e : ir.Ty)
      → is_pointer_ty ir t ≡ true
      → ir.pointee t ≡ some e
      → is_integer_ty ir e ≡ true
      → IntegerRelated ir t
  struct :
      {t : ir.Ty}
      → is_struct_ty ir t ≡ true
      → ((e : ir.Ty) → Memᴰ e (ir.elements t) → IntegerRelated ir e)
      → IntegerRelated ir t
  array :
      {t : ir.Ty} → is_array_ty ir t ≡ true → IntegerRelated ir (ir.element t) → IntegerRelated ir t

-- A type has one kind.
record IsOne (p s a i : Bool) : Type 0 where
  pointer_only : p ≡ true → (s ≡ false) × (a ≡ false) × (i ≡ false)
  struct_only : s ≡ true → (p ≡ false) × (a ≡ false) × (i ≡ false)
  array_only : a ≡ true → (p ≡ false) × (s ≡ false) × (i ≡ false)

kinds : (k : TypeId) → IsOne (is_pointer_id k) (is_struct_id k) (is_array_id k) (is_integer_id k)
kinds void_ty_id = record { pointer_only = λ h. cc; struct_only = λ h. cc; array_only = λ h. cc }
kinds _ = record {
  pointer_only = λ h. ground arith;
  struct_only = λ h. ground arith;
  array_only = λ h. ground arith;
}

-- What a related type of each kind has.
abbrev Has : (ir : Ir) → ir.Ty → Type 0
Has ir t =
    (is_pointer_ty ir t ≡ true
      → (e : ir.Ty) × (ir.pointee t ≡ some e) × (is_integer_ty ir e ≡ true))
    × (is_struct_ty ir t ≡ true → (e : ir.Ty) → Memᴰ e (ir.elements t) → IntegerRelated ir e)
    × (is_array_ty ir t ≡ true → IntegerRelated ir (ir.element t))
    × (is_pointer_ty ir t ≡ false
        → is_struct_ty ir t ≡ false
        → is_array_ty ir t ≡ false
        → is_integer_ty ir t ≡ true)

-- A test does not hold and fail.
clash {ℓ} : {A : Type ℓ} {b : Bool} → b ≡ true → b ≡ false → A
clash p q = absurd (cc)

IntegerRelated-Has : (ir : Ir) {t : ir.Ty} → IntegerRelated ir t → Has ir t
IntegerRelated-Has ir (int {t} h) =
    let k = kinds (ir.type_id t) in
    (
      λ p. clash h (k.pointer_only p).2,
      λ s. clash h (k.struct_only s).2,
      λ a. clash h (k.array_only a).2,
      λ _ _ _. h,
    )
IntegerRelated-Has ir (pointer {t} e h q i) =
    let k = (kinds (ir.type_id t)).pointer_only h in
    (λ _. (e, q, i), λ s. clash s k.0, λ a. clash a k.1, λ p _ _. clash h p)
IntegerRelated-Has ir (struct {t} h every) =
    let k = (kinds (ir.type_id t)).struct_only h in
    (λ p. clash p k.0, λ _. every, λ a. clash a k.1, λ _ s _. clash h s)
IntegerRelated-Has ir (array {t} h item) =
    let k = (kinds (ir.type_id t)).array_only h in
    (λ p. clash p k.0, λ s. clash s k.1, λ _. item, λ _ _ a. clash h a)

module _ (ir : Ir) (nested : IsNested ir) (plain : HasPointees ir) where
  open ir use {Ty, type_id, elements, element, nesting, pointee}

  -- A call that returns, and tells whether the statement holds.
  abbrev Decides : Option (Outcome Bool) → Type 0 → Type 0
  Decides r P = (b : Bool) × (r ≡ some (ok b)) × (b ≡ true → P) × (b ≡ false → ¬ P)

  if-Decides :
      (c : Bool) {P : Type 0} (x y : Option (Outcome Bool))
      → (c ≡ true → Decides x P)
      → (c ≡ false → Decides y P)
      → Decides (if c then x else y) P
  if-Decides true x y hx hy = hx refl
  if-Decides false x y hx hy = hy refl

  -- Two statements with one truth.
  Decides-iff :
      {P Q : Type 0} (r : Option (Outcome Bool)) → (P → Q) → (Q → P) → Decides r P → Decides r Q
  Decides-iff r to from (b, e, is, isnt) = (b, e, λ t. to (is t), λ f q. isnt f (from q))

  all_related-Decides :
      (related : Ty → Option (Outcome Bool)) (es : List Ty)
      → ((e : Ty) → Memᴰ e es → Decides (related e) (IntegerRelated ir e))
      → Decides (all_related ir related es) ((e : Ty) → Memᴰ e es → IntegerRelated ir e)
  unfolding all_related
  all_related-Decides related [] h = (true, refl, λ _ e m. absurd (Memᴰ.not-nil m), λ f. cc)
  all_related-Decides related (x ∷ es) h =
      let (found, e, is, isnt) = h x (Memᴰ.head refl) in
      let (others, e', all, notall) = all_related-Decides related es (λ y m. h y (Memᴰ.tail m)) in
      elim (Bool-cases found) [
        | inl yes_x ↦ (
          others,
          ground arith,
          λ o y m.
              ⊎_elim (λ (q : y ≡ x). subst (IntegerRelated ir) (sym q) (is yes_x)) (all o y)
                ((Memᴰ-cons y x es).0 m),
          λ o every. notall o (λ y m. every y (Memᴰ.tail m)),
        )
        | inr no_x ↦ (false, ground arith, λ f. cc, λ _ every. isnt no_x (every x (Memᴰ.head refl)))
      ]

  -- What each kind of type needs.
  points_to_integer-Decides :
      (t : Ty)
      → is_pointer_ty ir t ≡ true
      → Decides (some (points_to_integer ir t)) (IntegerRelated ir t)
  unfolding points_to_integer
  points_to_integer-Decides t h =
      let (e, pointed) = plain t h in
      (
        is_integer_ty ir e,
        ground arith,
        IntegerRelated.pointer e h pointed,
        λ f r. let (e', q, i) = (IntegerRelated-Has ir r).0 h in ground arith,
      )

  integer_related_in-Decides :
      (fuel : ℕ) (t : Ty)
      → nesting t < fuel
      → Decides (integer_related_in ir fuel t) (IntegerRelated ir t)
  unfolding integer_related_in
  integer_related_in-Decides zero t h = elim h [ ]
  integer_related_in-Decides (suc fuel) t h =
      if-Decides (is_pointer_ty ir t) _ _ (points_to_integer-Decides t) λ no_pointer.
        if-Decides (is_struct_ty ir t) _ _
          (λ s.
            Decides-iff _ (struct s) (λ r. (IntegerRelated-Has ir r).1 s)
              (all_related-Decides (integer_related_in ir fuel) (elements t) (λ e m.
                integer_related_in-Decides fuel e (omega (arith, nested.element_nesting t e s m)))))
          λ no_struct.
            if-Decides (is_array_ty ir t) _ _
              (λ a.
                Decides-iff _ (array a) (λ r. (IntegerRelated-Has ir r).2 a)
                  (integer_related_in-Decides fuel (element t)
                    (omega (arith, nested.array_nesting t a))))
              λ no_array. (
                is_integer_ty ir t,
                refl,
                int,
                λ f r. clash ((IntegerRelated-Has ir r).3 no_pointer no_struct no_array) f,
              )

  -- The recursion ends, without a fault if no pointer is opaque, and answers true exactly for an
  -- integer, a pointer to an integer, a struct of related elements and an array of a related one.
  pub is_integer_related_type-decides :
      (t : Ty)
      → (b : Bool) × (is_integer_related_type ir t ≡ some (ok b))
        × ((b ≡ true) ↔ ∥ IntegerRelated ir t ∥₁)
  unfolding is_integer_related_type
  is_integer_related_type-decides t =
      let (b, e, is, isnt) = integer_related_in-Decides (suc (nesting t)) t (omega arith) in
      (
        b,
        e,
        (
          λ h. ∣ is h ∣₁,
          λ r. elim (Bool-cases b) [ inl h ↦ h | inr f ↦ absurd (∥∥₁_elim r ⊥_prop (isnt f)) ],
        ),
      )
