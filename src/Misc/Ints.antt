-- ===== src/Misc/Ints.antt =====
-- tools/misc/Misc.cc, `to_int` and `test_err`.
pub mod Accepts
pub mod Reports
pub mod Tests
use snippets_llvm.Base.{
  ℕ, Bool, true, false, not, ◌&&◌, List, [], ◌∷◌, ◌++◌, Text, codes, drop, ◌==◌, if◌then◌else◌,
}
use snippets_llvm.Base.Int.{ℤ}
use snippets_llvm.Streams.{Extracted, failed, got, extract_int, show_int}

-- `llvm::Error`, as far as it is used: none, one made of a text by `createStringError` with
-- `errc::invalid_argument`, `joinErrors`, and what `logAllUnhandledErrors` writes with a banner.
pub record Errors : Type 1 where
  pub Error : Type 0
  pub success : Error
  pub string_error : Text → Error
  pub join : Error → Error → Error
  pub log_all : Error → Text → Text

-- `%s` of `S.c_str()`: up to a character NUL
unfoldable pub c_str : Text → Text
c_str [] = []
c_str (c ∷ s) = if c == 0 then [] else c ∷ c_str s

module _ (api : Errors) where
  open api use {Error, success, string_error, join, log_all}

  -- `llvm::Expected<int>`
  pub data Expected : Type 0 where
    value : ℤ → Expected
    error : Error → Expected

  abbrev pub of_extracted : Text → Bool → Extracted → Expected
  of_extracted s match_word failed = error (string_error (codes "Failed to parse int: " ++ c_str s))
  of_extracted s match_word (got z eof) =
      if match_word && not eof
      then error (string_error (codes "Failed to parse full string as int: " ++ c_str s))
      else value z

  unfoldable pub to_int : Text → Bool → Expected
  to_int s match_word = of_extracted s match_word (extract_int s)

  -- The loop over the arguments: what is written to `std::cout`, and the errors.
  unfoldable pub parse_args : List Text → Text → Error → Text × Error
  parse_args [] out errs = (out, errs)
  parse_args (a ∷ args) out errs = elim (to_int a true) [
    | value z ↦ parse_args args (out ++ (show_int z ++ codes " ")) errs
    | error x ↦ parse_args args out (join errs x)
  ]

  -- What is written to `std::cout` and to `errs()`. The first argument is the program's name.
  unfoldable pub test_err : List Text → Text × Text
  test_err argv =
      let (ints, errs) = parse_args (drop 1 argv) (codes "Ints: ") success in
      (ints ++ (codes "\n" ++ codes "\n"), log_all errs (codes "\nErrors:\n"))
