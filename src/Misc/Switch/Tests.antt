-- ===== src/Misc/Switch/Tests.antt =====
-- The switch on a few texts.
use snippets_llvm.Base.{Option, none, [], ◌∷◌, ◌||◌, ◌≡◌, refl, Text, codes, text_eq}
use snippets_llvm.Base.Int.{ℤ}
use snippets_llvm.Outcome.{ok}
use snippets_llvm.Errs.{text}
use snippets_llvm.Streams.{show_int, decimal, emit}
use snippets_llvm.Misc.Switch.{StringSwitch, switch_number, print_numbers, test_string_switch}
use snippets_llvm.Misc.Switch.Numbers.{
  IsFirstMatch, Numbering, begins_with, ends_in, decided, or_default, switch_number-Numbering,
}

-- A switch as its text and the result so far.
abbrev pub first_match : StringSwitch
first_match = record {
  Switch = Text × Option ℤ;
  start = λ s. (s, none);
  case = λ t v (s, r). (s, decided r (text_eq s t) v);
  cases = λ t u x v (s, r). (s, decided r (text_eq s t || (text_eq s u || text_eq s x)) v);
  ends_with = λ t v (s, r). (s, decided r (ends_in s t) v);
  starts_with = λ t v (s, r). (s, decided r (begins_with s t) v);
  default = λ d (s, r). or_default r d;
}

first_match-IsFirstMatch : IsFirstMatch first_match
first_match-IsFirstMatch = record {
  subject = λ w. w.0;
  result = λ w. w.1;
  start_is = λ s. (refl, refl);
  case_is = λ t v w. (refl, refl);
  cases_is = λ t u x v w. (refl, refl);
  ends_with_is = λ t v w. (refl, refl);
  starts_with_is = λ t v w. (refl, refl);
  default_is = λ d w. refl;
}

-- The lines that are printed.
lines : test_string_switch first_match (codes "f") ≡ record {
  out =
      text (codes "\n\n===f\n")
      ∷ text (codes "hello      1\n")
      ∷ text (codes "World      2\n")
      ∷ text (codes "nihao      3\n")
      ∷ text (codes "!          3\n")
      ∷ text (codes "jiejie     4\n")
      ∷ text (codes "how        5\n")
      ∷ text (codes "none       0\n")
      ∷ [];
  end = ok tt;
}
unfolding test_string_switch print_numbers switch_number text_eq ends_in begins_with show_int
    decimal emit
lines = refl

switch_number-Numbering_example :
    Numbering (codes "jiejie") (switch_number first_match (codes "jiejie"))
switch_number-Numbering_example =
    switch_number-Numbering first_match first_match-IsFirstMatch (codes "jiejie")
