-- ===== src/Dump/InstKind/Labels.antt =====
-- The names of classes that `printInstKind` prints, and what follows them.
use snippets_llvm.Base.{
  Bool, true, false, ◌&&◌, List, [], ◌∷◌, ◌++◌, ◌≡◌, refl, ap, arith, codes, All, flat_map,
  if◌then◌else◌, Bool-cases, Option-cases, Option, none, some, inl, inr,
}
use mathlib.Core.List.{append-nil}
use snippets_llvm.Outcome.{ok}
use snippets_llvm.Errs.{Chunk, Run, text, pure, write, ◌>>=◌}
use snippets_llvm.Llvm.{Ir}
use snippets_llvm.Llvm.Classes.{Class, call_inst, binary_operator}
use snippets_llvm.Dump.Printing.{rbscope_diagnostics, fatal}
use snippets_llvm.Dump.InstKind.{
  class_text, Tests, first_kinds, other_kinds, call_kinds, inst_kind_dump, dump_kinds,
  print_call_kind, print_other_kind, print_inst_kind,
}
use snippets_llvm.Dump.InstKind.Ends.{inst_type_str-key}

-- A name with an arrow behind it, and one at which a chain ends.
abbrev pub arrow : Class → List Chunk
arrow c = text (class_text c) ∷ text (codes " <-- ") ∷ []

abbrev pub line : Class → List Chunk
line c = text (class_text c) ∷ text (codes "\n") ∷ []

abbrev line_of : Option Class → List Chunk
line_of none = []
line_of (some c) = line c

module _ (ir : Ir) where
  open ir use {Value, isa, is_inline_asm, print_value}

  -- The classes that an instruction is of, of the tests before the first that stops, and the class
  -- of this one.
  passed : Tests → Value → List Class
  passed [] i = []
  passed ((stops, c) ∷ tests) i =
      let rest = passed tests i in if isa c i then (if stops then [] else c ∷ rest) else rest

  last_test : Tests → Value → Option Class
  last_test [] i = none
  last_test ((stops, c) ∷ tests) i =
      let rest = last_test tests i in if stops && isa c i then some c else rest

  inst_kind_dump-label :
      (stops : Bool) (c : Class) (i : Value)
      → inst_kind_dump ir stops c i ≡ record {
        out = if isa c i then (if stops then line c else arrow c) else [];
        end = ok (stops && isa c i);
      }
  unfolding inst_kind_dump
  inst_kind_dump-label true c i = ground (arith, inst_type_str-key c)
  inst_kind_dump-label false c i = ground (arith, inst_type_str-key c)

  dump_kinds-labels :
      (tests : Tests) (i : Value)
      → dump_kinds ir tests i ≡ record {
        out = flat_map arrow (passed tests i) ++ line_of (last_test tests i);
        end = ok (elim (last_test tests i) [ none ↦ false | some c ↦ true ]);
      }
  unfolding dump_kinds passed last_test
  dump_kinds-labels [] i = refl
  dump_kinds-labels ((true, c) ∷ tests) i = elim (Bool-cases (isa c i)) [
    | inl e ↦ rw (inst_kind_dump-label true c i, e) refl
    | inr e ↦ rw (inst_kind_dump-label true c i, e, dump_kinds-labels tests i) refl
  ]
  dump_kinds-labels ((false, c) ∷ tests) i = elim (Bool-cases (isa c i)) [
    | inl e ↦ rw (inst_kind_dump-label false c i, e, dump_kinds-labels tests i) refl
    | inr e ↦ rw (inst_kind_dump-label false c i, e, dump_kinds-labels tests i) refl
  ]

  -- The instruction is of these classes.
  passed-All : (tests : Tests) (i : Value) → All (λ c. isa c i ≡ true) (passed tests i)
  unfolding passed
  passed-All [] i = tt
  passed-All ((true, c) ∷ tests) i = ground (arith, passed-All tests i)
  passed-All ((false, c) ∷ tests) i = ground (arith, passed-All tests i)

  last_test-isa :
      (tests : Tests) (i : Value) (c : Class) → last_test tests i ≡ some c → isa c i ≡ true
  unfolding last_test
  last_test-isa [] i c h = cc
  last_test-isa ((true, d) ∷ tests) i c h = elim (Bool-cases (isa d i)) [
    | inl e ↦ (let k = rw e at h in cc)
    | inr e ↦ last_test-isa tests i c (rw e at h)
  ]
  last_test-isa ((false, d) ∷ tests) i c h = last_test-isa tests i c h

  -- What is written after the names with an arrow.
  pub data Last (i : Value) : List Chunk → Type 0 where
    at_stop : (c : Class) → isa c i ≡ true → Last i (line c)
    inline_asm :
        isa call_inst i ≡ true → is_inline_asm i ≡ true → Last i (text (codes "InlineAsm\n") ∷ [])
    simple_call :
        isa call_inst i ≡ true
        → is_inline_asm i ≡ false
        → Last i (text (codes "[Simple CallInst]\n") ∷ [])
    unknown :
        isa call_inst i ≡ false
        → Last i (rbscope_diagnostics fatal (codes "unknown Instruction Type\n")).out

  abbrev pub Kinds : Value → List Chunk → Type 0
  Kinds i out =
      (names : List Class) × (last : List Chunk) × All (λ name. isa name i ≡ true) names
      × Last i last
      × (out ≡ flat_map arrow names ++ last)

  -- A chain of tests with what is done if none of them stops.
  dump_kinds-Kinds :
      (tests : Tests) (i : Value) (k : Run (Unit {0}))
      → Last i k.out
      → Kinds i (dump_kinds ir tests i >>= λ left. if left then pure tt else k).out
  dump_kinds-Kinds tests i k l = elim (Option-cases (last_test tests i)) [
    | inl e ↦ (
      passed tests i,
      k.out,
      passed-All tests i,
      l,
      rw (dump_kinds-labels tests i, e, append-nil (flat_map arrow (passed tests i))) refl,
    )
    | inr (c, e) ↦ (
      passed tests i,
      line c,
      passed-All tests i,
      at_stop c (last_test-isa tests i c e),
      rw (dump_kinds-labels tests i, e, append-nil (flat_map arrow (passed tests i) ++ line c))
          refl,
    )
  ]

  Kinds-cons :
      (c : Class) (i : Value) (out : List Chunk)
      → isa c i ≡ true
      → Kinds i out
      → Kinds i (arrow c ++ out)
  Kinds-cons c i out e (names, last, all, l, o) =
      (c ∷ names, last, (e, all), l, ap (λ out. arrow c ++ out) o)

  print_call_kind-Kinds : (i : Value) → isa call_inst i ≡ true → Kinds i (print_call_kind ir i).out
  unfolding print_call_kind
  print_call_kind-Kinds i e = elim (Bool-cases (is_inline_asm i)) [
    | inl a ↦ ([], text (codes "InlineAsm\n") ∷ [], tt, inline_asm e a, rw a refl)
    | inr a ↦
        rw a (dump_kinds-Kinds call_kinds i (write (codes "[Simple CallInst]\n")) (simple_call e a))
  ]

  print_other_kind-Kinds :
      (i : Value) → isa call_inst i ≡ false → Kinds i (print_other_kind ir i).out
  unfolding print_other_kind
  print_other_kind-Kinds i e = dump_kinds-Kinds other_kinds i _ (unknown e)

  -- After the instruction, `printInstKind` writes an arrow behind each of some names of classes that
  -- the instruction belongs to, and at the end one more such name, or `InlineAsm` for a call of
  -- inline assembly, or `[Simple CallInst]` for another call, or, for what is no call, the message
  -- that the type is unknown.
  pub print_inst_kind-Kinds :
      (i : Value)
      → (kinds : List Chunk) × Kinds i kinds
        × ((print_inst_kind ir i).out ≡ text (codes "\n" ++ (print_value i ++ codes "\n")) ∷ kinds)
  unfolding print_inst_kind passed last_test
  print_inst_kind-Kinds i = elim (Bool-cases (isa binary_operator i)) [
    | inl b ↦ (
      line binary_operator,
      ([], line binary_operator, tt, at_stop binary_operator b, refl),
      rw (dump_kinds-labels first_kinds i, b) refl,
    )
    | inr b ↦ elim (Bool-cases (isa call_inst i)) [
      | inl e ↦ (
        _,
        Kinds-cons call_inst i _ e (print_call_kind-Kinds i e),
        rw (dump_kinds-labels first_kinds i, b, e) refl,
      )
      | inr e ↦ (_, print_other_kind-Kinds i e, rw (dump_kinds-labels first_kinds i, b, e) refl)
    ]
  ]
