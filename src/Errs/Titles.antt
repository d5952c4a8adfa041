-- ===== src/Errs/Titles.antt =====
-- Code that writes titles in colours, and other text without.
use mathlib.Core.List.{append_assoc, append-nil}
use mathlib.Core.Path.{ap₂}
use snippets_llvm.Base.{false, some, List, [], ◌∷◌, ◌++◌, ◌≡◌, refl, Text, ◌∙◌, ap, sym, subst}
use snippets_llvm.Outcome.{Outcome, ok, fault}
use snippets_llvm.Errs.{Run, Color, text, change_color, reset_color, then_run, ◌>>=◌}
use snippets_llvm.Errs.Colors.{
  colored, colored-append, shown, shown-append, IsPlain, plain-colored, plain-shown,
}

-- Code that sets no colour over another and leaves none, also where it stops, and that writes given
-- texts in colours, in order, or the first of them where it stops.
pub record Titles {A : Type 0} (ts : List Text) (m : Run A) : Type 0 where
  pub kept : colored false m.out ≡ some false
  pub left : List Text
  pub titles : ts ≡ shown false m.out ++ left
  pub all : (a : A) → m.end ≡ ok a → left ≡ []

pub plain-Titles : {A : Type 0} (m : Run A) → IsPlain m → Titles [] m
plain-Titles m p = record {
  kept = plain-colored m.out p.plain;
  left = [];
  titles = rw (plain-shown m.out p.plain) refl;
  all = λ a e. refl;
}

-- A line in a colour of its own before the rest.
pub title-Titles :
    {A : Type 0} (c : Color) (t : Text) (ts : List Text) (k : Run A)
    → Titles ts k
    → Titles (t ∷ ts) (record { out = change_color c ∷ text t ∷ reset_color ∷ k.out; end = k.end })
title-Titles c t ts k r = record {
  kept = r.kept;
  left = r.left;
  titles = ap (λ us. t ∷ us) r.titles;
  all = r.all;
}

-- Two parts, one after the other.
pub then_run-Titles :
    {A B : Type 0} (ts us : List Text) (m : Run A) (f : A → Run B)
    → Titles ts m
    → ((a : A) → Titles us (f a))
    → Titles (ts ++ us) (m >>= f)
then_run-Titles {A} {B} ts us m f r q = ends m.end refl
  where
    ends : (end : Outcome A) → m.end ≡ end → Titles (ts ++ us) (then_run m.out end f)
    ends (ok a) e = record {
      kept = colored-append false false m.out (f a).out r.kept ∙ (q a).kept;
      left = (q a).left;
      titles =
          ap₂ (λ vs ws. vs ++ ws)
            (r.titles ∙ ap (λ l. shown false m.out ++ l) (r.all a e) ∙ append-nil _) (q a).titles
          ∙ sym (append_assoc (shown false m.out) (shown false (f a).out) (q a).left)
          ∙ ap (λ vs. vs ++ (q a).left) (sym (shown-append false false m.out (f a).out r.kept));
      all = (q a).all;
    }
    ends (fault x) e = record {
      kept = r.kept;
      left = r.left ++ us;
      titles = ap (λ vs. vs ++ us) r.titles ∙ append_assoc (shown false m.out) r.left us;
      all = λ b h. cc h;
    }

-- A part with titles before one without colours.
pub before_plain-Titles :
    {A B : Type 0} (ts : List Text) (m : Run A) (f : A → Run B)
    → Titles ts m
    → ((a : A) → IsPlain (f a))
    → Titles ts (m >>= f)
before_plain-Titles ts m f r p =
    subst (λ us. Titles us (m >>= f)) (append-nil ts)
      (then_run-Titles ts [] m f r (λ a. plain-Titles (f a) (p a)))
