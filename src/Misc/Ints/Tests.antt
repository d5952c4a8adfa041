-- ===== src/Misc/Ints/Tests.antt =====
-- The parser on a few texts.
use snippets_llvm.Base.{
  true, false, List, [], ◌∷◌, ◌++◌, ◌≡◌, ◌↔◌, refl, arith, Text, codes, flat_map, ap,
}
use snippets_llvm.Base.Int.{pos, negsuc, InRange}
use snippets_llvm.Streams.{
  int_bound, extract_int, extract_signed, extract_digits, skip_space, scan, show_int, decimal, emit,
}
use snippets_llvm.Streams.Scans.{Spells}
use snippets_llvm.Misc.Ints.{Errors, value, error, to_int, test_err, parse_args, c_str}
use snippets_llvm.Misc.Ints.Accepts.{to_int_iff, to_int-show_int}
use snippets_llvm.Misc.Ints.Reports.{IsErrors}

-- Errors as the list of their messages.
abbrev pub log_lines : List Text → Text → Text
log_lines [] banner = []
log_lines (t ∷ ts) banner = banner ++ flat_map (λ m. m ++ codes "\n") (t ∷ ts)

abbrev pub list_errors : Errors
list_errors = record {
  Error = List Text;
  success = [];
  string_error = λ t. t ∷ [];
  join = λ x y. x ++ y;
  log_all = log_lines;
}

pub list_errors-IsErrors : IsErrors list_errors
list_errors-IsErrors = record {
  messages = λ x. x;
  messages_success = refl;
  messages_string_error = λ t. refl;
  messages_join = λ x y. refl;
  log_none = λ x banner h. ap (λ ts. log_lines ts banner) h;
  log_some = λ x banner t ts h. ap (λ us. log_lines us banner) h;
}

-- The largest and the smallest `int`, and the numbers next to them.
edges :
    (to_int list_errors (codes "2147483647") true ≡ value (pos 2147483647))
    × (to_int list_errors (codes " -2147483648") true ≡ value (negsuc 2147483647))
    × (to_int list_errors (codes "2147483648") true
        ≡ error (codes "Failed to parse int: 2147483648" ∷ []))
    × (to_int list_errors (codes "-2147483649") false
        ≡ error (codes "Failed to parse int: -2147483649" ∷ []))
unfolding to_int extract_int extract_signed extract_digits skip_space scan c_str
edges = (refl, refl, refl, refl)

trailing :
    (to_int list_errors (codes "12x") false ≡ value (pos 12))
    × (to_int list_errors (codes "12x") true
        ≡ error (codes "Failed to parse full string as int: 12x" ∷ []))
unfolding to_int extract_int extract_signed extract_digits skip_space scan c_str
trailing = (refl, refl)

report :
    test_err list_errors (codes "misc" ∷ codes "+7" ∷ codes "x" ∷ codes "-30" ∷ [])
    ≡ (codes "Ints: 7 -30 \n\n", codes "\nErrors:\nFailed to parse int: x\n")
unfolding test_err parse_args to_int extract_int extract_signed extract_digits skip_space scan c_str
    show_int decimal emit
report = refl

to_int_iff_example :
    (to_int list_errors (codes " -42") true ≡ value (negsuc 41))
    ↔ (Spells (codes " -42") (negsuc 41) × InRange int_bound (negsuc 41))
to_int_iff_example = to_int_iff list_errors (codes " -42") (negsuc 41)

to_int-show_int_example :
    to_int list_errors (show_int (negsuc 2147483647)) true ≡ value (negsuc 2147483647)
to_int-show_int_example = to_int-show_int list_errors (negsuc 2147483647) true (omega arith)
