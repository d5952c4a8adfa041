-- ===== src/Errs/Colors.antt =====
-- Colours that are set in what is written.
use snippets_llvm.Base.{
  Bool, true, false, Option, none, some, List, [], ◌∷◌, ◌++◌, ◌≡◌, refl, arith, Text, ap, refl,
  if◌then◌else◌,
}
use snippets_llvm.Outcome.{Outcome, ok, fault}
use snippets_llvm.Errs.{Run, Chunk, text, change_color, reset_color, then_run, ◌>>=◌, lift}

-- Is a colour set after some output, if one `is` set before it? Nothing, if a colour is set over
-- another, or reset where none is set.
abbrev pub colored : Bool → List Chunk → Option Bool
colored is [] = some is
colored is (text t ∷ out) = colored is out
colored false (change_color c ∷ out) = colored true out
colored true (change_color c ∷ out) = none
colored true (reset_color ∷ out) = colored false out
colored false (reset_color ∷ out) = none

pub colored-append :
    (is after : Bool) (s t : List Chunk)
    → colored is s ≡ some after
    → colored is (s ++ t) ≡ colored after t
colored-append is after [] t h = ground arith
colored-append is after (text x ∷ s) t h = colored-append is after s t h
colored-append false after (change_color c ∷ s) t h = colored-append true after s t h
colored-append true after (change_color c ∷ s) t h = cc
colored-append true after (reset_color ∷ s) t h = colored-append false after s t h
colored-append false after (reset_color ∷ s) t h = cc

-- Text without colours, and code that writes such text only.
abbrev pub is_plain : List Chunk → Bool
is_plain [] = true
is_plain (text t ∷ out) = is_plain out
is_plain (change_color c ∷ out) = false
is_plain (reset_color ∷ out) = false

is_plain-append :
    (s t : List Chunk) → is_plain s ≡ true → is_plain t ≡ true → is_plain (s ++ t) ≡ true
is_plain-append [] t h k = k
is_plain-append (text x ∷ s) t h k = is_plain-append s t h k
is_plain-append (change_color c ∷ s) t h k = cc
is_plain-append (reset_color ∷ s) t h k = cc

pub record IsPlain {A : Type 0} (m : Run A) : Type 0 where
  pub plain : is_plain m.out ≡ true

module _ {A : Type 0} where
  pub lift-IsPlain : (end : Outcome A) → IsPlain (lift end)
  lift-IsPlain end = record { plain = refl }

  pub text-IsPlain :
      (t : Text) (k : Run A) → IsPlain k → IsPlain (record { out = text t ∷ k.out; end = k.end })
  text-IsPlain t k r = record { plain = r.plain }

  pub if-IsPlain : (b : Bool) (m k : Run A) → IsPlain m → IsPlain k → IsPlain (if b then m else k)
  if-IsPlain true m k r s = r
  if-IsPlain false m k r s = s

pub then_run-IsPlain :
    {A B : Type 0} (m : Run A) (f : A → Run B)
    → IsPlain m
    → ((a : A) → IsPlain (f a))
    → IsPlain (m >>= f)
then_run-IsPlain {A} {B} m f plain_m plain_f = record { plain = ends m.end }
  where
    ends : (end : Outcome A) → is_plain (then_run m.out end f).out ≡ true
    ends (ok a) = is_plain-append m.out (f a).out plain_m.plain (plain_f a).plain
    ends (fault x) = plain_m.plain

-- Code that writes nothing before its rest.
pub lift_then-IsPlain :
    {A B : Type 0} (end : Outcome A) (f : A → Run B)
    → ((a : A) → IsPlain (f a))
    → IsPlain (lift end >>= f)
lift_then-IsPlain end f plain_f = then_run-IsPlain (lift end) f (lift-IsPlain end) plain_f

-- `search` with these shows that code writes no colours, by its parts.
pub ruleset plain_code =
    (lift-IsPlain, text-IsPlain, if-IsPlain, lift_then-IsPlain, then_run-IsPlain)

-- What is written in a colour, if one `is` set before.
abbrev pub shown : Bool → List Chunk → List Text
shown is [] = []
shown true (text t ∷ out) = t ∷ shown true out
shown false (text t ∷ out) = shown false out
shown is (change_color c ∷ out) = shown true out
shown is (reset_color ∷ out) = shown false out

pub shown-append :
    (is after : Bool) (s t : List Chunk)
    → colored is s ≡ some after
    → shown is (s ++ t) ≡ shown is s ++ shown after t
shown-append is after [] t h = ground arith
shown-append true after (text x ∷ s) t h = ap (λ ts. x ∷ ts) (shown-append true after s t h)
shown-append false after (text x ∷ s) t h = shown-append false after s t h
shown-append false after (change_color c ∷ s) t h = shown-append true after s t h
shown-append true after (change_color c ∷ s) t h = cc
shown-append true after (reset_color ∷ s) t h = shown-append false after s t h
shown-append false after (reset_color ∷ s) t h = cc

pub plain-colored : (out : List Chunk) → is_plain out ≡ true → colored false out ≡ some false
plain-colored [] h = refl
plain-colored (text t ∷ out) h = plain-colored out h
plain-colored (change_color c ∷ out) h = cc
plain-colored (reset_color ∷ out) h = cc

pub plain-shown : (out : List Chunk) → is_plain out ≡ true → shown false out ≡ []
plain-shown [] h = refl
plain-shown (text t ∷ out) h = plain-shown out h
plain-shown (change_color c ∷ out) h = cc
plain-shown (reset_color ∷ out) h = cc
