-- ===== src/Streams.antt =====
-- What the C++ library's streams do with an `int` in the classic locale: `std::istringstream >>` and
-- `std::ostream <<`, as the repository uses them.
pub mod Scans
pub mod Reads
pub mod Prints
use snippets_llvm.Base.{
  ℕ, zero, suc, ◌+◌, ◌-◌, ◌*◌, ◌/◌, ◌%◌, ◌^◌, Bool, true, false, ◌&&◌, ◌||◌, List, [], ◌∷◌, Text,
  codes, ltb, ◌==◌, if◌then◌else◌,
}
use snippets_llvm.Base.Int.{ℤ, pos, negsuc, neg, in_range}

-- `int`
abbrev pub int_bound : ℕ
int_bound = 2 ^ 31

-- `isspace`, and the digits of base ten
abbrev pub is_space : ℕ → Bool
is_space c = c == 32 || (ltb 8 c && ltb c 14)

abbrev pub is_digit : ℕ → Bool
is_digit c = ltb 47 c && ltb c 58

pub data Sign : Type 0 where
  plus minus : Sign

abbrev pub signed : Sign → ℕ → ℤ
signed plus n = pos n
signed minus n = neg n

-- `ss >> result`: `failbit` is set, or a value is read and `eofbit` says whether the text's end was
-- met.
pub data Extracted : Type 0 where
  failed : Extracted
  got : ℤ → Bool → Extracted

-- The digits in front, read as a number behind `n`, and what follows them.
unfoldable pub scan : Text → ℕ → ℕ × Text
scan [] n = (n, [])
scan (c ∷ s) n = if is_digit c then scan s (n * 10 + (c - 48)) else (n, c ∷ s)

abbrev pub is_nil : Text → Bool
is_nil [] = true
is_nil (c ∷ s) = false

-- A number that is no `int` is an error of the stream.
abbrev pub ranged : ℤ → Bool → Extracted
ranged z eof = if in_range int_bound z then got z eof else failed

abbrev pub finish : Sign → ℕ × Text → Extracted
finish sign (n, rest) = ranged (signed sign n) (is_nil rest)

unfoldable pub extract_digits : Sign → Text → Extracted
extract_digits sign [] = failed
extract_digits sign (c ∷ s) =
    let number = finish sign (scan (c ∷ s) 0) in if is_digit c then number else failed

unfoldable pub extract_signed : Text → Extracted
extract_signed [] = failed
extract_signed (c ∷ s) =
    if c == b'-'
    then extract_digits minus s
    else if c == b'+'
    then extract_digits plus s
    else extract_digits plus (c ∷ s)

unfoldable pub skip_space : Text → Text
skip_space [] = []
skip_space (c ∷ s) = if is_space c then skip_space s else c ∷ s

unfoldable pub extract_int : Text → Extracted
extract_int s = extract_signed (skip_space s)

-- The digits of a number in front of a text; `fuel` above the number is enough.
unfoldable pub emit : ℕ → ℕ → Text → Text
emit zero n out = out
emit (suc fuel) n out =
    let rest = emit fuel (n / 10) ((48 + n % 10) ∷ out) in if n == 0 then out else rest

unfoldable pub decimal : ℕ → Text
decimal n = if n == 0 then codes "0" else emit (suc n) n []

-- `<<` of an `int`
unfoldable pub show_int : ℤ → Text
show_int (pos n) = decimal n
show_int (negsuc n) = b'-' ∷ decimal (suc n)
