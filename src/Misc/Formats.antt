-- ===== src/Misc/Formats.antt =====
-- tools/misc/Misc.cc, `test_format`.
use snippets_llvm.Base.{ℕ, [], ◌∷◌, ◌++◌, ◌≡◌, refl, Text, codes, map}
use snippets_llvm.Outcome.{ok}
use snippets_llvm.Errs.{Run, text, write, ◌>>◌}
use snippets_llvm.Streams.{decimal, emit}
use snippets_llvm.Misc.People.{Person, format}

-- `llvm::formatv` of one argument: the argument is what its `format_provider` writes for a style.
-- `show_char` is LLVM's provider for `char`.
pub record Formatter : Type 0 where
  pub formatv : Text → (Text → Text) → Text
  pub show_char : ℕ → Text → Text

-- The documentation: `{0}` is replaced by the argument with an empty style.
pub record IsFormatter (formatter : Formatter) : Type 0 where
  pub plain : (f : Text → Text) → formatter.formatv (codes "{0}") f ≡ f []

module _ (formatter : Formatter) where
  open formatter use {formatv, show_char}

  -- `__PRETTY_FUNCTION__` is the compiler's.
  unfoldable pub test_format : Text → Run (Unit {0})
  test_format pretty_function =
      let p : Person = record { name_ = codes "hongxu"; age_ = 18 } in
      do
        write (codes "\n\n===" ++ (pretty_function ++ codes "\n"))
        write (formatv (codes "{0}") (λ style. format p) ++ codes "\n")
        write (formatv (codes "{0,=7}\n") (show_char b'a'))
        write (formatv (codes "{0,-7}\n") (show_char b'a'))
        write (formatv (codes "{0,+7}\n") (show_char b'a'))

  -- `test_format` prints the person by its own provider, and returns.
  pub test_format_lines :
      (pretty_function : Text)
      → IsFormatter formatter
      → test_format pretty_function ≡ record {
        out = map text (
            (codes "\n\n===" ++ (pretty_function ++ codes "\n"))
            ∷ codes "Person(name=hongxu, age=18)\n"
            ∷ formatv (codes "{0,=7}\n") (show_char b'a')
            ∷ formatv (codes "{0,-7}\n") (show_char b'a')
            ∷ formatv (codes "{0,+7}\n") (show_char b'a')
            ∷ []);
        end = ok tt;
      }
  unfolding test_format format decimal emit
  test_format_lines pretty_function laws =
      rw (laws.plain (λ style. format (record { name_ = codes "hongxu"; age_ = 18 }))) refl
