-- ===== src/CountBb/Setup/Sample/Inserts.antt =====
-- The sample meets the laws of instructions.
use mathlib.Core.List.{Memᴰ}
use snippets_llvm.Base.{
  append-nonempty, ℕ, true, false, Option, none, some, List, [], ◌∷◌, ◌++◌, ◌≡◌, ◌≢◌, inl, inr,
  refl, sym, ap, ◌∙◌, subst, arith, map, Bool-cases,
}
use snippets_llvm.CountBb.{load, add_const, store, call_with_fn, call_with, ret}
use snippets_llvm.CountBb.Visits.{IsEditor}
use snippets_llvm.Base.Names.{update_self, update_other}
use snippets_llvm.CountBb.Setup.Sample.{
  Instr, term, old, made_load, made_add, made_store, made_call_fn, made_call, made_ret, Op, made,
  operation, block_of, place, is_term, has_term, insert_last, insert_before, Program, put_before,
  find_global, editor,
}

pub operation-made : (b : ℕ) (o : Op) → operation (made b o) ≡ some o
operation-made b (load g) = refl
operation-made b (add_const i n) = refl
operation-made b (store i g) = refl
operation-made b (call_with_fn f g) = refl
operation-made b (call_with f c i) = refl
operation-made b ret = refl

pub place-made : (b : ℕ) (o : Op) → place b (made b o) ≡ made b o
place-made b (load g) = refl
place-made b (add_const i n) = refl
place-made b (store i g) = refl
place-made b (call_with_fn f g) = refl
place-made b (call_with f c i) = refl
place-made b ret = refl

pub block_of-place : (b : ℕ) (i : Instr) → block_of (place b i) ≡ b
block_of-place b (term c) = refl
block_of-place b (old c n) = refl
block_of-place b (made_load c g) = refl
block_of-place b (made_add c i n) = refl
block_of-place b (made_store c i g) = refl
block_of-place b (made_call_fn c f g) = refl
block_of-place b (made_call c f k i) = refl
block_of-place b (made_ret c) = refl

pub is_term-place : (b : ℕ) (i : Instr) → is_term (place b i) ≡ is_term i
is_term-place b (term c) = refl
is_term-place b (old c n) = refl
is_term-place b (made_load c g) = refl
is_term-place b (made_add c i n) = refl
is_term-place b (made_store c i g) = refl
is_term-place b (made_call_fn c f g) = refl
is_term-place b (made_call c f k i) = refl
is_term-place b (made_ret c) = refl

-- A terminator is the one of its block.
place-term : (b : ℕ) (i : Instr) → is_term i ≡ true → place b i ≡ term b
place-term b (term c) h = refl
place-term b (old c n) h = cc
place-term b (made_load c g) h = cc
place-term b (made_add c i n) h = cc
place-term b (made_store c i g) h = cc
place-term b (made_call_fn c f g) h = cc
place-term b (made_call c f k i) h = cc
place-term b (made_ret c) h = cc

-- What a list begins with when it ends with a terminator, placed.
insert_last-place :
    (b : ℕ) (new t : Instr) (is xs : List Instr)
    → is_term t ≡ true
    → map (place b) is ≡ xs ++ (t ∷ [])
    → (has_term is ≡ true) × (map (place b) (insert_last new is) ≡ xs ++ (place b new ∷ t ∷ []))
insert_last-place b new t [] xs h e = absurd (append-nonempty xs t (sym e))
insert_last-place b new t (i ∷ []) [] h e =
    let head : place b i ≡ t = cc e in
    let ends : is_term i ≡ true = sym (is_term-place b i) ∙ ap is_term head ∙ h in
    (rw ends refl, rw ends (ap (λ x. place b new ∷ x ∷ []) head))
insert_last-place b new t (i ∷ j ∷ js) [] h e = cc
insert_last-place b new t (i ∷ is) (x ∷ xs) h e =
    let head : place b i ≡ x = cc e in
    let (p, q) = insert_last-place b new t is xs h (cc e) in
    (ground (arith, p), rw p (cc (head, q)))

no_term : (b : ℕ) (is : List Instr) → ¬ Memᴰ (term b) (map (place b) is) → has_term is ≡ false
no_term b [] h = refl
no_term b (i ∷ is) h = elim (Bool-cases (is_term i)) [
  | inl p ↦ absurd (h (Memᴰ.head (sym (place-term b i p))))
  | inr p ↦ rw p (no_term b is (λ k. h (Memᴰ.tail k)))
]

-- In front of a list that begins with an instruction that does not come again.
insert_before-front :
    (b : ℕ) (new i : Instr) (is js : List Instr)
    → map (place b) js ≡ i ∷ is
    → ¬ Memᴰ i is
    → map (place b) (insert_before i new js) ≡ place b new ∷ i ∷ is
insert_before-front b new i is [] e once = cc
insert_before-front b new i is (j ∷ js) e once =
    let head : place b j ≡ i = cc e in
    let tail : map (place b) js ≡ is = cc e in
    elim (Bool-cases (is_term j)) [
      | inl p ↦
          let q = no_term b js (λ h. once (
            subst (λ x. Memᴰ x is) (sym (place-term b j p) ∙ head)
              (subst (Memᴰ (term b)) tail h))) in
          rw (sym head, is_term-place b j, p, q, tail) refl
      | inr p ↦ rw (sym head, is_term-place b j, p, tail) refl
    ]

pub same_before :
    (m : Program) (o : Op) (p : Option Instr)
    → ((put_before m o p).0.names ≡ m.names)
      × ((put_before m o p).0.bodies ≡ m.bodies)
      × ((put_before m o p).0.globals ≡ m.globals)
      × ((put_before m o p).0.ids ≡ m.ids)
same_before m o none = (refl, refl, refl, refl)
same_before m o (some i) = (refl, refl, refl, refl)

pub created_before :
    (m : Program) (o : Op) (p : Option Instr) → operation (put_before m o p).1 ≡ some o
created_before m o none = operation-made 0 o
created_before m o (some i) = operation-made (block_of i) o

pub some-inj : {A : Type 0} {a b : A} → some a ≡ some b → a ≡ b
some-inj h = cc

-- What stands first in a block is in this block.
in_block : (b : ℕ) (i : Instr) (is js : List Instr) → map (place b) js ≡ i ∷ is → block_of i ≡ b
in_block b i is [] h = cc
in_block b i is (j ∷ js) h =
    let head : place b j ≡ i = cc h in ap block_of (sym head) ∙ block_of-place b j

pub put_before_other :
    (m : Program) (o : Op) (i : Instr) (c : ℕ)
    → block_of i ≢ c
    → map (place c) ((put_before m o (some i)).0.code c) ≡ map (place c) (m.code c)
put_before_other m o i c ne = ap (map (place c)) (update_other m.code (block_of i) c _ ne)

pub put_before_own :
    (m : Program) (o : Op) (i : Instr) (b : ℕ)
    → block_of i ≡ b
    → (put_before m o (some i)).0.code b ≡ insert_before i (made b o) (m.code b)
put_before_own m o i b e =
    subst (λ c. (put_before m o (some i)).0.code c ≡ insert_before i (made c o) (m.code c)) e
      (update_self m.code (block_of i) _)

-- Of an instruction that is placed in a block
abbrev after_put : Program → Op → Instr → ℕ → List Instr
after_put m o i b = map (place b) ((put_before m o (some i)).0.code b)

pub terminator_put :
    (m : Program) (o : Op) (b : ℕ) (t : Instr) (xs : List Instr)
    → some (term b) ≡ some t
    → map (place b) (m.code b) ≡ xs ++ (t ∷ [])
    → after_put m o t b ≡ xs ++ ((put_before m o (some t)).1 ∷ t ∷ [])
terminator_put m o b t xs ht hi =
    let same : term b ≡ t = some-inj ht in
    subst
      (λ u.
        map (place b) (m.code b) ≡ xs ++ (u ∷ [])
        → after_put m o u b ≡ xs ++ ((put_before m o (some u)).1 ∷ u ∷ []))
      same
      (λ h.
        ap (map (place b)) (put_before_own m o (term b) b refl)
        ∙ (insert_last-place b (made b o) (term b) (m.code b) xs refl h).1
        ∙ ap (λ n. xs ++ (n ∷ term b ∷ [])) (place-made b o))
      hi

pub first_put :
    (m : Program) (o : Op) (b : ℕ) (i : Instr) (is : List Instr)
    → map (place b) (m.code b) ≡ i ∷ is
    → ¬ Memᴰ i is
    → after_put m o i b ≡ (put_before m o (some i)).1 ∷ i ∷ is
first_put m o b i is h once =
    let here = in_block b i is (m.code b) h in
    ap (map (place b)) (put_before_own m o i b here)
    ∙ insert_before-front b (made b o) i is (m.code b) h once
    ∙ ap (λ n. n ∷ i ∷ is) (place-made b o ∙ ap (λ c. made c o) (sym here))

pub elsewhere_put :
    (m : Program) (o : Op) (b c : ℕ) (i : Instr) (is : List Instr)
    → map (place b) (m.code b) ≡ i ∷ is
    → b ≢ c
    → after_put m o i c ≡ map (place c) (m.code c)
elsewhere_put m o b c i is h ne =
    put_before_other m o i c (λ p. ne (sym (in_block b i is (m.code b) h) ∙ p))

abbrev pub editor_laws : IsEditor editor
editor_laws = record {
  operation = operation;
  created = λ m o n p. created_before m o p;
  same_fn_name = λ m o n p. (same_before m o p).0;
  same_blocks = λ m o n p. (same_before m o p).1;
  same_globals = λ m o n p. ap (λ gs t. find_global t gs) (same_before m o p).2;
  same_terminator = λ m o n p. refl;
  before_terminator = λ m o n b t xs ht hi. terminator_put m o b t xs ht hi;
  elsewhere =
      λ m o n b c t ht ne. put_before_other m o t c (λ p. ne (ap block_of (some-inj ht) ∙ p));
}
