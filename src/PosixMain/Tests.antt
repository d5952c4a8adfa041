-- ===== src/PosixMain/Tests.antt =====
-- The pass on a small module.
use mathlib.Core.List.Memᴰ
use snippets_llvm.Base.{
  ℕ, zero, suc, ◌≡◌, refl, true, false, [], ◌∷◌, codes, text_eq, Text, Memᴰ-cons, inl, inr, sym,
  ◌∙◌, ap,
}
use snippets_llvm.Outcome.{ok}
use snippets_llvm.Llvm.Sample.{sample_ir}
use snippets_llvm.Base.{◌↔◌, Bool, some}
use snippets_llvm.PosixMain.{posix_main_pass}
use snippets_llvm.PosixMain.Returns.{has_taken_main, posix_main_pass_returns}
use snippets_llvm.PosixMain.Moves.{Replaced}
use snippets_llvm.PosixMain.Laws.{IsNamed}
use snippets_llvm.PosixMain.Replaces.{pass_lines, posix_main_pass_replaces}
use snippets_llvm.PosixMain.Sample.{Functions, editor, editor-IsMainEditor, main_type}

-- A helper and a `main` of two blocks.
abbrev names : ℕ → Text
names zero = codes "helper"
names (suc n) = codes "main"

abbrev start : Functions
start = record {
  ids = 0 ∷ 1 ∷ [];
  names = names;
  types = λ f. [];
  links = λ f. 4;
  attrs = λ f. 9;
  bodies = λ f. 10 ∷ 11 ∷ [];
  uses = λ f. false;
}

start-IsNamed : IsNamed sample_ir editor start
start-IsNamed f g hf hg e = elim ((Memᴰ-cons f 0 (1 ∷ [])).0 hf) [
  | inl p ↦ elim ((Memᴰ-cons g 0 (1 ∷ [])).0 hg) [
    | inl q ↦ p ∙ sym q
    | inr q ↦ cc (ap names p, ap names (Memᴰ.eq_of_singleton q), e)
  ]
  | inr p ↦ elim ((Memᴰ-cons g 0 (1 ∷ [])).0 hg) [
    | inl q ↦ cc (ap names (Memᴰ.eq_of_singleton p), ap names q, e)
    | inr q ↦ Memᴰ.eq_of_singleton p ∙ sym (Memᴰ.eq_of_singleton q)
  ]
]

posix_main_pass_replaces_example :
    (n : Functions) × (posix_main_pass sample_ir editor (codes "make it") (codes "7") start
      ≡ record {
        out = pass_lines sample_ir editor editor-IsMainEditor (codes "make it") (codes "7");
        end = ok (true, n);
      })
    × Replaced sample_ir editor editor-IsMainEditor start 1 n
    × ((posix_main_pass sample_ir editor (codes "make it") (codes "7") n).end ≡ ok (false, n))
unfolding text_eq
posix_main_pass_replaces_example =
    posix_main_pass_replaces sample_ir editor editor-IsMainEditor main_type (codes "make it")
      (codes "7") start 1 start-IsNamed refl refl refl refl

posix_main_pass_returns_example :
    ((r : Bool × Functions) × ((posix_main_pass sample_ir editor
          (codes "make it")
          (codes "7")
          start).end
        ≡ ok r))
    ↔ (has_taken_main sample_ir editor editor-IsMainEditor start (some 1) ≡ true)
unfolding text_eq
posix_main_pass_returns_example =
    posix_main_pass_returns sample_ir editor editor-IsMainEditor (codes "make it") (codes "7") start
