-- ===== src/Dump/Printing/Balanced.antt =====
-- Colours that the printers of LLDump.cc set.
use snippets_llvm.Base.{
  ℕ, zero, suc, Bool, false, Option, none, some, [], ◌∷◌, ◌≡◌, refl, arith, Text, ◌∙◌,
}
use snippets_llvm.Outcome.{Outcome, ok, fault}
use snippets_llvm.Errs.{Run, then_run, ◌>>=◌}
use snippets_llvm.Errs.Colors.{colored, colored-append}
use snippets_llvm.Llvm.{Ir}
use snippets_llvm.Dump.Printing.{
  newlines, write_owner, pretty_body, pretty_instruction, pretty_argument, pretty_other,
  pretty_print,
}

-- Code that ends without a fault leaves the colour as it found it.
abbrev Keeps : {A : Type 0} → Bool → Run A → Type 0
Keeps {A} is m = (a : A) → m.end ≡ ok a → colored is m.out ≡ some is

then_run-Keeps :
    {A B : Type 0} (is : Bool) (m : Run A) (f : A → Run B)
    → Keeps is m
    → ((a : A) → Keeps is (f a))
    → Keeps is (m >>= f)
then_run-Keeps {A} {B} is m f keep_m keep_f b = ends m.end refl
  where
    ends :
        (end : Outcome A)
        → m.end ≡ end
        → (then_run m.out end f).end ≡ ok b
        → colored is (then_run m.out end f).out ≡ some is
    ends (ok a) e h = colored-append is is m.out (f a).out (keep_m a e) ∙ keep_f a b h
    ends (fault x) e h = cc

newlines-Keeps : (n : ℕ) → Keeps false (newlines n)
unfolding newlines
newlines-Keeps zero a h = refl
newlines-Keeps (suc n) a h = newlines-Keeps n a h

module _ (ir : Ir) where
  open ir use {Value, isa, name, print_value, parent}

  pretty_instruction-Keeps : (v : Value) → Keeps false (pretty_instruction ir v)
  unfolding pretty_instruction write_owner
  pretty_instruction-Keeps v a h = ground arith

  pretty_argument-Keeps : (v : Value) → Keeps false (pretty_argument ir v)
  unfolding pretty_argument write_owner
  pretty_argument-Keeps v a h = ground arith

  pretty_other-Keeps : (v : Value) (n : Text) → Keeps false (pretty_other ir v n)
  unfolding pretty_other
  pretty_other-Keeps v [] a h = refl
  pretty_other-Keeps v (c ∷ n) a h = refl

  pretty_body-Keeps : (v : Value) → Keeps false (pretty_body ir v)
  unfolding pretty_body
  pretty_body-Keeps v a h = ground (
    arith,
    pretty_instruction-Keeps v a,
    pretty_argument-Keeps v a,
    pretty_other-Keeps v (name v) a,
  )

  -- Where `prettyPrint` returns, its output has no colour set over another one, none reset that
  -- was not set, and none left at the end.
  pub pretty_print-colored :
      (v : Option Value) (end_line start_line : ℕ)
      → (pretty_print ir v end_line start_line).end ≡ ok tt
      → colored false (pretty_print ir v end_line start_line).out ≡ some false
  unfolding pretty_print
  pretty_print-colored none end_line start_line h = refl
  pretty_print-colored (some v) end_line start_line h =
      then_run-Keeps false _ _ (newlines-Keeps start_line)
        (λ u. then_run-Keeps false _ _ (pretty_body-Keeps v) (λ u. newlines-Keeps _)) tt h
