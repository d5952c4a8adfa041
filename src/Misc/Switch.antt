-- ===== src/Misc/Switch.antt =====
-- tools/misc/Misc.cc, `test_StringSwitch`.
pub mod Numbers
pub mod Tests
use snippets_llvm.Base.{ℕ, zero, suc, ◌-◌, List, [], ◌∷◌, ◌++◌, Text, codes, length}
use snippets_llvm.Base.Int.{ℤ, pos}
use snippets_llvm.Errs.{Run, pure, write, ◌>>◌}
use snippets_llvm.Streams.{show_int}

-- `llvm::StringSwitch<int>`: what each method makes of a switch, and the number at the end.
pub record StringSwitch : Type 1 where
  pub Switch : Type 0
  pub start : Text → Switch
  pub case : Text → ℤ → Switch → Switch
  pub cases : Text → Text → Text → ℤ → Switch → Switch
  pub ends_with : Text → ℤ → Switch → Switch
  pub starts_with : Text → ℤ → Switch → Switch
  pub default : ℤ → Switch → ℤ

-- `%-10s`
abbrev spaces : ℕ → Text
spaces zero = []
spaces (suc n) = b' ' ∷ spaces n

abbrev pub left_justified : Text → Text
left_justified s = s ++ spaces (10 - length s)

module _ (api : StringSwitch) where
  open api use {start, case, cases, ends_with, starts_with, default}

  unfoldable pub switch_number : Text → ℤ
  switch_number str =
      let w1 = case (codes "hello") (pos 1) (start str) in
      let w2 = case (codes "World") (pos 2) w1 in
      let w3 = cases (codes "nihao") (codes "shijie") (codes "!") (pos 3) w2 in
      let w4 = ends_with (codes "jie") (pos 4) w3 in
      let w5 = starts_with (codes "h") (pos 5) w4 in default (pos 0) w5

  unfoldable pub print_numbers : List Text → Run (Unit {0})
  print_numbers [] = pure tt
  print_numbers (str ∷ strs) = do
    write (left_justified str ++ (codes " " ++ (show_int (switch_number str) ++ codes "\n")))
    print_numbers strs

  -- `__PRETTY_FUNCTION__` is the compiler's.
  unfoldable pub test_string_switch : Text → Run (Unit {0})
  test_string_switch pretty_function = do
    write (codes "\n\n===" ++ (pretty_function ++ codes "\n"))
    print_numbers (
        codes "hello"
        ∷ codes "World"
        ∷ codes "nihao"
        ∷ codes "!"
        ∷ codes "jiejie"
        ∷ codes "how"
        ∷ codes "none"
        ∷ [])
