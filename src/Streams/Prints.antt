-- ===== src/Streams/Prints.antt =====
-- What `<<` prints of an `int`, and that `>>` reads it back.
use mathlib.Core.List.{cons-ne-nil}
use snippets_llvm.Base.{
  ℕ, zero, suc, ◌+◌, ◌/◌, ◌%◌, ◌<◌, true, false, [], ◌∷◌, ◌≡◌, ◌≢◌, refl, sym, ap, ◌∙◌, arith, Text,
  codes, All, Bool-cases, inl, inr, ◌==◌, ==_iff,
}
use snippets_llvm.Base.Int.{ℤ, pos, negsuc, InRange}
use snippets_llvm.Streams.{int_bound, plus, minus, got, extract_int, emit, decimal, show_int}
use snippets_llvm.Streams.Scans.{IsDigit, number, unmarked, minus_mark, Spells}
use snippets_llvm.Streams.Reads.{extract_int_iff}

emit-IsDigit : (fuel n : ℕ) (out : Text) → All IsDigit out → All IsDigit (emit fuel n out)
unfolding emit
emit-IsDigit zero n out h = h
emit-IsDigit (suc fuel) n out h = elim (Bool-cases (n == 0)) [
  | inl done ↦ rw done h
  | inr more ↦ rw more (emit-IsDigit fuel (n / 10) ((48 + n % 10) ∷ out) (ground arith, h))
]

number-emit : (fuel n : ℕ) (out : Text) → n < fuel → number 0 (emit fuel n out) ≡ number n out
unfolding emit
number-emit zero n out h = elim h [ ]
number-emit (suc fuel) n out h = elim (Bool-cases (n == 0)) [
  | inl done ↦ rw done (ap (λ k. number k out) (sym ((==_iff n 0).0 done)))
  | inr more ↦ rw more (
      number-emit fuel (n / 10) ((48 + n % 10) ∷ out) (ground arith)
      ∙ ap (λ k. number k out) (omega arith))
]

emit-ne-nil : (fuel n : ℕ) (out : Text) → out ≢ [] → emit fuel n out ≢ []
unfolding emit
emit-ne-nil zero n out h = h
emit-ne-nil (suc fuel) n out h = elim (Bool-cases (n == 0)) [
  | inl done ↦ rw done h
  | inr more ↦
      rw more (emit-ne-nil fuel (n / 10) ((48 + n % 10) ∷ out) (cons-ne-nil (48 + n % 10) out))
]

-- The first round of printing a number that is not zero.
decimal-step : (n : ℕ) → (n == 0) ≡ false → decimal n ≡ emit n (n / 10) ((48 + n % 10) ∷ [])
unfolding decimal emit
decimal-step n h = rw h refl

decimal-IsDigit : (n : ℕ) → All IsDigit (decimal n)
unfolding decimal
decimal-IsDigit n = elim (Bool-cases (n == 0)) [
  | inl done ↦ rw done (refl, tt)
  | inr more ↦ rw more (emit-IsDigit (suc n) n [] tt)
]

number-decimal : (n : ℕ) → number 0 (decimal n) ≡ n
unfolding decimal
number-decimal n = elim (Bool-cases (n == 0)) [
  | inl done ↦ rw done (sym ((==_iff n 0).0 done))
  | inr more ↦ rw more (number-emit (suc n) n [] (omega arith))
]

decimal-ne-nil : (n : ℕ) → decimal n ≢ []
decimal-ne-nil n = elim (Bool-cases (n == 0)) [
  | inl done ↦ unfold decimal in rw done (cons-ne-nil 48 [])
  | inr more ↦
      rw (decimal-step n more)
        (emit-ne-nil n (n / 10) ((48 + n % 10) ∷ []) (cons-ne-nil (48 + n % 10) []))
]

show_int-Spells : (z : ℤ) → Spells (show_int z) z
unfolding show_int
show_int-Spells (pos n) = record {
  space = [];
  sign = plus;
  mark = [];
  digits = decimal n;
  whole = refl;
  all_space = tt;
  marks = unmarked;
  some_digits = decimal-ne-nil n;
  all_digits = decimal-IsDigit n;
  exact = ap pos (sym (number-decimal n));
}
show_int-Spells (negsuc n) = record {
  space = [];
  sign = minus;
  mark = codes "-";
  digits = decimal (suc n);
  whole = refl;
  all_space = tt;
  marks = minus_mark;
  some_digits = decimal-ne-nil (suc n);
  all_digits = decimal-IsDigit (suc n);
  exact = rw (number-decimal (suc n)) refl;
}

-- Every `int` is read back from what is printed of it.
pub extract_int-show_int : (z : ℤ) → InRange int_bound z → extract_int (show_int z) ≡ got z true
extract_int-show_int z h = (extract_int_iff (show_int z) z).1 (show_int-Spells z, h)
