-- ===== src/Utils/Blocks/Neighbours.antt =====
-- The neighbours of an instruction in its block.
use mathlib.Core.List.{Memᴰ}
use mathlib.Core.Logic.{if_pos, if_neg}
use snippets_llvm.Base.{
  Option, none, some, List, [], ◌∷◌, ◌≡◌, ◌↔◌, ◌⊎◌, inl, inr, sym, ap, subst, ◌∙◌, arith, head?,
}
use snippets_llvm.Outcome.{ok}
use snippets_llvm.Llvm.{Ir}
use snippets_llvm.Llvm.Laws.{Distinct, IsPlaced}
use snippets_llvm.Utils.Blocks.{next_in, prev_in, get_succ_in_block, get_pred_in_block}

module _ {ℓ} {A : Type ℓ} (eq : Discrete A) where
  some_inj : {a b : A} → some a ≡ some b → a ≡ b
  some_inj h = cc

  mem_of_head? : (j : A) (xs : List A) → head? xs ≡ some j → Memᴰ j xs
  mem_of_head? j [] h = cc
  mem_of_head? j (x ∷ xs) h = Memᴰ.head (ground arith)

  next_in-mem : (i j : A) (xs : List A) → next_in eq i xs ≡ some j → Memᴰ j xs × Memᴰ i xs
  unfolding next_in
  next_in-mem i j [] h = cc
  next_in-mem i j (x ∷ xs) h = elim (eq i x) [
    | yes e ↦ (Memᴰ.tail (mem_of_head? j xs (ground arith)), Memᴰ.head e)
    | no ne ↦ let (mj, mi) = next_in-mem i j xs (ground arith) in (Memᴰ.tail mj, Memᴰ.tail mi)
  ]

  -- What is not the first element is looked for behind it.
  prev_in_tail :
      (before : Option A) (x j : A) (xs : List A)
      → Memᴰ j xs
      → Distinct (x ∷ xs)
      → prev_in eq before j (x ∷ xs) ≡ prev_in eq (some x) j xs
  unfolding prev_in
  prev_in_tail before x j xs m d = if_neg (eq j x) (λ e. d.0 (subst (λ a. Memᴰ a xs) e m)) _ _

  -- One step back from the second element is the first.
  prev-head :
      (x j : A) (before : Option A) (xs : List A)
      → Distinct (x ∷ xs)
      → head? xs ≡ some j
      → prev_in eq before j (x ∷ xs) ≡ some x
  unfolding prev_in
  prev-head x j before [] d h = cc
  prev-head x j before (y ∷ ys) d h =
      let jy = some_inj h in
      let other = λ (e : j ≡ x). d.0 (Memᴰ.head (sym e ∙ sym jy)) in
      rw (if_neg (eq j x) other, if_pos (eq j y) (sym jy))

  prev-next :
      (i j : A) (before : Option A) (xs : List A)
      → Distinct xs
      → next_in eq i xs ≡ some j
      → prev_in eq before j xs ≡ some i
  unfolding next_in
  prev-next i j before [] d h = cc
  prev-next i j before (x ∷ xs) d h = elim (eq i x) [
    | yes e ↦ prev-head x j before xs d (rw (if_pos (eq i x) e) at h) ∙ ap some (sym e)
    | no ne ↦
        let h' = rw (if_neg (eq i x) ne) at h in
        prev_in_tail before x j xs (next_in-mem i j xs h').0 d ∙ prev-next i j (some x) xs d.1 h'
  ]

  next-prev :
      (i j : A) (before : Option A) (xs : List A)
      → Distinct xs
      → prev_in eq before j xs ≡ some i
      → ((before ≡ some i) × (head? xs ≡ some j)) ⊎ (next_in eq i xs ≡ some j)
  unfolding next_in prev_in
  next-prev i j before [] d h = cc
  next-prev i j before (x ∷ xs) d h = elim (eq j x) [
    | yes e ↦ inl (rw (if_pos (eq j x) e) at h, ap some (sym e))
    | no ne ↦ elim (next-prev i j (some x) xs d.1 (rw (if_neg (eq j x) ne) at h)) [
      | inl (here, next) ↦ inr (if_pos (eq i x) (sym (some_inj here)) _ _ ∙ next)
      | inr later ↦
          let other = λ (e : i ≡ x). d.0 (subst (λ a. Memᴰ a xs) e (next_in-mem i j xs later).1) in
          inr (if_neg (eq i x) other _ _ ∙ later)
    ]
  ]

module _ (ir : Ir) (placed : IsPlaced ir) where
  open ir use {Value, value_eq, parent, insts}

  get_succ-eq :
      (i b : Value) → parent i ≡ some b → get_succ_in_block ir i ≡ ok (next_in value_eq i (insts b))
  unfolding get_succ_in_block
  get_succ-eq i b e = rw e

  get_pred-eq :
      (i b : Value)
      → parent i ≡ some b
      → get_pred_in_block ir i ≡ ok (prev_in value_eq none i (insts b))
  unfolding get_pred_in_block
  get_pred-eq i b e = rw e

  -- For instructions of blocks: one is the successor of the other in its block exactly if the other
  -- is its predecessor.
  pub succ_iff_pred :
      (i j b c : Value)
      → parent i ≡ some b
      → parent j ≡ some c
      → (get_succ_in_block ir i ≡ ok (some j)) ↔ (get_pred_in_block ir j ≡ ok (some i))
  succ_iff_pred i j b c pi pj = (forth, back)
    where
      forth : get_succ_in_block ir i ≡ ok (some j) → get_pred_in_block ir j ≡ ok (some i)
      forth h =
          let next : next_in value_eq i (insts b) ≡ some j = cc (get_succ-eq i b pi) in
          let here = placed.parent_of j b (next_in-mem value_eq i j (insts b) next).0 in
          get_pred-eq j b here
          ∙ ap ok (prev-next value_eq i j none (insts b) (placed.distinct b) next)

      back : get_pred_in_block ir j ≡ ok (some i) → get_succ_in_block ir i ≡ ok (some j)
      back h =
          let prev : prev_in value_eq none j (insts c) ≡ some i = cc (get_pred-eq j c pj) in
          elim (next-prev value_eq i j none (insts c) (placed.distinct c) prev) [
            | inl (nothing, _) ↦ cc
            | inr next ↦
                let here = placed.parent_of i c (next_in-mem value_eq i j (insts c) next).1 in
                get_succ-eq i c here ∙ ap ok next
          ]
