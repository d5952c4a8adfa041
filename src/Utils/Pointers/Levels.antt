-- ===== src/Utils/Pointers/Levels.antt =====
-- How many pointers deep the queries of `Pointers` look.
use snippets_llvm.Base.{
  ℕ, zero, suc, Bool, true, false, ◌&&◌, ◌||◌, none, some, ◌≡◌, inl, inr, refl, arith,
  if◌then◌else◌, Bool-cases, get_elem?,
}
use snippets_llvm.Outcome.{ok}
use snippets_llvm.Llvm.{Ir, is_pointer_ty, element_type, cast_pointer, get_operand}
use snippets_llvm.Llvm.Classes.{alloca_inst, global_variable, function}
use snippets_llvm.Llvm.Laws.{IsClassTree, IsTyped, HasPointees}
use snippets_llvm.Utils.Pointers.{
  is_trivial_pointer, get_pointed_type, is_pointer_value, get_value_pointed_type,
  is_pointer_to_pointer_value, check_function_init, is_global_pointer_init,
}

module _ (ir : Ir) where
  open ir use {Value, Ty, isa, type_of, pointee, operands, is_declaration}

  -- A stack slot, a global variable or a function.
  abbrev pub is_trivial : Value → Bool
  is_trivial v = isa alloca_inst v || (isa global_variable v || isa function v)

  -- A pointer to a pointer … to something, `n` pointers in all, or more.
  abbrev pub is_deep : ℕ → Ty → Bool
  is_deep zero t = true
  is_deep (suc n) t =
      is_pointer_ty ir t && (elim (pointee t) [ none ↦ false | some e ↦ is_deep n e ])

  module _ (typed : IsTyped ir) where
    is_trivial_pointer-eq : (v : Value) → is_trivial_pointer ir v ≡ ok (is_trivial v)
    unfolding is_trivial_pointer
    is_trivial_pointer-eq v =
        ground
          (arith, typed.alloca_pointer v, typed.global_variable_pointer v, typed.function_pointer v)

    trivial_is_pointer : (v : Value) → is_trivial v ≡ true → is_pointer_ty ir (type_of v) ≡ true
    trivial_is_pointer v h =
        ground
          (arith, typed.alloca_pointer v, typed.global_variable_pointer v, typed.function_pointer v)

    module _ (pointees : HasPointees ir) where
      -- The step from a pointer to what it points to.
      pointed :
          (t : Ty)
          → is_pointer_ty ir t ≡ true
          → (e : Ty) × (pointee t ≡ some e)
            × (get_pointed_type ir t ≡ ok e)
            × (cast_pointer ir t ≡ ok t)
            × (element_type ir t ≡ ok e)
      unfolding get_pointed_type cast_pointer element_type
      pointed t h = let (e, p) = pointees t h in (e, p, ground arith, ground arith, ground arith)

      is_deep-one : (t : Ty) → is_deep 1 t ≡ is_pointer_ty ir t
      is_deep-one t = elim (Bool-cases (is_pointer_ty ir t)) [
        | inl h ↦ let (e, p) = pointees t h in ground arith
        | inr h ↦ ground arith
      ]

      is_deep-next :
          (n : ℕ) (t e : Ty)
          → is_pointer_ty ir t ≡ true
          → pointee t ≡ some e
          → is_deep (suc n) t ≡ is_deep n e
      is_deep-next n t e h p = ground arith

      is_pointer_value-eq :
          (v : Value)
          → is_pointer_value ir v ≡ ok (is_deep (if is_trivial v then 2 else 1) (type_of v))
      unfolding is_pointer_value
      is_pointer_value-eq v = elim (Bool-cases (is_trivial v)) [
        | inl h ↦
            let is_ptr = trivial_is_pointer v h in
            let (e, p, _, cast, elem) = pointed (type_of v) is_ptr in
            rw (
              is_trivial_pointer-eq v,
              h,
              cast,
              elem,
              is_deep-next 1 (type_of v) e is_ptr p,
              is_deep-one e,
            )
        | inr h ↦ rw (is_trivial_pointer-eq v, h, is_deep-one (type_of v))
      ]

      is_pointer_to_pointer_value-eq :
          (v : Value)
          → is_pointer_to_pointer_value ir v
            ≡ ok (is_deep (if is_trivial v then 3 else 2) (type_of v))
      unfolding is_pointer_to_pointer_value get_value_pointed_type
      is_pointer_to_pointer_value-eq v = elim (Bool-cases (is_trivial v)) [
        | inl h ↦
            let is_ptr = trivial_is_pointer v h in
            let (e, p, get, _, _) = pointed (type_of v) is_ptr in
            elim (Bool-cases (is_pointer_ty ir e)) [
              | inl more ↦
                  let (e', p', get', _, _) = pointed e more in
                  rw (
                    is_pointer_value-eq v,
                    h,
                    get,
                    is_trivial_pointer-eq v,
                    h,
                    get',
                    is_deep-next 1 (type_of v) e is_ptr p,
                    is_deep-one e,
                    more,
                    is_deep-next 2 (type_of v) e is_ptr p,
                    is_deep-next 1 e e' more p',
                    is_deep-one e',
                  )
              | inr last ↦ rw (
                is_pointer_value-eq v,
                h,
                is_deep-next 1 (type_of v) e is_ptr p,
                is_deep-one e,
                last,
                is_deep-next 2 (type_of v) e is_ptr p,
                last,
              )
            ]
        | inr h ↦ elim (Bool-cases (is_pointer_ty ir (type_of v))) [
          | inl is_ptr ↦
              let (e, p, get, _, _) = pointed (type_of v) is_ptr in
              rw (
                is_pointer_value-eq v,
                h,
                is_deep-one (type_of v),
                is_ptr,
                get,
                is_trivial_pointer-eq v,
                h,
                p,
                is_deep-one e,
              )
          | inr flat ↦ rw (is_pointer_value-eq v, h, is_deep-one (type_of v), flat)
        ]
      ]

      -- With no opaque pointers, and operands typed as the verifier wants them, the two queries end
      -- without a fault. What a stack slot, a global variable or a function points to is asked about
      -- in its place: it is a pointer value if its type is two pointers deep, and one to a pointer
      -- value if three deep; for other values it is one and two.
      pub is_pointer_value-deep :
          (v : Value)
          → (is_pointer_value ir v ≡ ok (is_deep (if is_trivial v then 2 else 1) (type_of v)))
            × (is_pointer_to_pointer_value ir v
                ≡ ok (is_deep (if is_trivial v then 3 else 2) (type_of v)))
      is_pointer_value-deep v = (is_pointer_value-eq v, is_pointer_to_pointer_value-eq v)

    -- For a global variable with an initialiser the query answers, without a fault, whether the
    -- initialiser is a stack slot, a global variable or a function.
    is_global_pointer_init-eq :
        IsClassTree ir
        → (g op : Value) → isa global_variable g ≡ true
        → is_declaration g ≡ false
        → get_elem? (operands g) 0 ≡ some op
        → is_global_pointer_init ir g ≡ ok (is_trivial op)
    unfolding is_global_pointer_init check_function_init get_operand
    is_global_pointer_init-eq tree g op is_gv here first =
        let no_function = tree.isa_disjoint global_variable function g refl (λ e. cc) is_gv in
        ground (arith, is_trivial_pointer-eq op)
