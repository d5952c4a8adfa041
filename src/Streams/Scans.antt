-- ===== src/Streams/Scans.antt =====
-- Which texts `>>` reads an `int` from, to the end.
use mathlib.Core.List.{foldl, append-nil, cons-ne-nil}
use snippets_llvm.Base.{
  ℕ, ◌+◌, ◌-◌, ◌*◌, Bool, true, false, [], ◌∷◌, ◌++◌, ◌≡◌, ◌≢◌, ◌↔◌, refl, sym, subst, ap, ◌∙◌,
  arith, Text, codes, All, Bool-cases, inl, inr,
}
use snippets_llvm.Base.Int.{ℤ, pos, negsuc, in_range, InRange}
use snippets_llvm.Streams.{
  int_bound, is_space, is_digit, Sign, plus, minus, signed, got, scan, is_nil, ranged,
  extract_digits, skip_space,
}

abbrev pub IsSpace : ℕ → Type 0
IsSpace c = is_space c ≡ true

abbrev pub IsDigit : ℕ → Type 0
IsDigit c = is_digit c ≡ true

-- The number that digits spell behind `n`.
abbrev pub number : ℕ → Text → ℕ
number = foldl (λ n c. n * 10 + (c - 48))

-- What may stand for a sign.
pub data SignText : Sign → Text → Type 0 where
  unmarked : SignText plus []
  plus_mark : SignText plus (codes "+")
  minus_mark : SignText minus (codes "-")

-- A text that spells an integer: white space, a sign or none, and digits.
pub record Spells (s : Text) (z : ℤ) : Type 0 where
  pub space : Text
  pub sign : Sign
  pub mark : Text
  pub digits : Text
  pub whole : s ≡ space ++ (mark ++ digits)
  pub all_space : All IsSpace space
  pub marks : SignText sign mark
  pub some_digits : digits ≢ []
  pub all_digits : All IsDigit digits
  pub exact : z ≡ signed sign (number 0 digits)

scan_sound :
    (s : Text) (n : ℕ)
    → (ds : Text) × (s ≡ ds ++ (scan s n).1) × All IsDigit ds × ((scan s n).0 ≡ number n ds)
unfolding scan
scan_sound [] n = ([], refl, tt, refl)
scan_sound (c ∷ s) n = elim (Bool-cases (is_digit c)) [
  | inl h ↦
      let (ds, whole, all, value) = scan_sound s (n * 10 + (c - 48)) in
      (c ∷ ds, rw h (ap (◌∷◌ c) whole), (h, all), rw h value)
  | inr h ↦ ([], rw h refl, tt, rw h refl)
]

scan_complete : (s : Text) (n : ℕ) → All IsDigit s → scan s n ≡ (number n s, [])
unfolding scan
scan_complete [] n h = refl
scan_complete (c ∷ s) n h = rw h.0 (scan_complete s (n * 10 + (c - 48)) h.1)

pub in_range_iff : (z : ℤ) → (in_range int_bound z ≡ true) ↔ InRange int_bound z
in_range_iff (pos n) = ground arith
in_range_iff (negsuc n) = ground arith

ranged_sound :
    (z y : ℤ) (eof : Bool)
    → ranged z eof ≡ got y true
    → (y ≡ z) × (eof ≡ true) × InRange int_bound z
ranged_sound z y eof h = elim (Bool-cases (in_range int_bound z)) [
  | inl fits ↦ let e = rw fits at h in (cc e, cc e, (in_range_iff z).0 fits)
  | inr over ↦ let e = rw over at h in (cc e, cc e, absurd (cc e))
]

nil_of_is_nil : (s : Text) → is_nil s ≡ true → s ≡ []
nil_of_is_nil [] h = refl
nil_of_is_nil (c ∷ s) h = cc

-- The digits behind a sign.
pub extract_digits_sound :
    (sign : Sign) (s : Text) (z : ℤ)
    → extract_digits sign s ≡ got z true
    → (s ≢ []) × All IsDigit s × (z ≡ signed sign (number 0 s)) × InRange int_bound z
unfolding extract_digits
extract_digits_sound sign [] z h = cc
extract_digits_sound sign (c ∷ s) z h = elim (Bool-cases (is_digit c)) [
  | inl d ↦
      let (n, rest) = scan (c ∷ s) 0 in
      let (ds, whole, all, value) = scan_sound (c ∷ s) 0 in
      let (exact, end, fits) = ranged_sound (signed sign n) z (is_nil rest) (rw d at h) in
      let same : c ∷ s ≡ ds = whole ∙ ap (λ t. ds ++ t) (nil_of_is_nil rest end) ∙ append-nil ds in
      (
        cons-ne-nil c s,
        subst (All IsDigit) (sym same) all,
        exact ∙ ap (signed sign) (value ∙ ap (number 0) (sym same)),
        subst (InRange int_bound) (sym exact) fits,
      )
  | inr d ↦ absurd (cc (rw d at h))
]

pub extract_digits_complete :
    (sign : Sign) (s : Text)
    → s ≢ []
    → All IsDigit s
    → InRange int_bound (signed sign (number 0 s))
    → extract_digits sign s ≡ got (signed sign (number 0 s)) true
unfolding extract_digits
extract_digits_complete sign [] ne all fits = absurd (ne refl)
extract_digits_complete sign (c ∷ s) ne all fits =
    rw (all.0, scan_complete (c ∷ s) 0 all, (in_range_iff (signed sign (number 0 (c ∷ s)))).1 fits)
      refl

pub skip_space_sound : (s : Text) → (ws : Text) × (s ≡ ws ++ skip_space s) × All IsSpace ws
unfolding skip_space
skip_space_sound [] = ([], refl, tt)
skip_space_sound (c ∷ s) = elim (Bool-cases (is_space c)) [
  | inl h ↦ let (ws, whole, all) = skip_space_sound s in (c ∷ ws, rw h (ap (◌∷◌ c) whole), (h, all))
  | inr h ↦ ([], rw h refl, tt)
]

pub skip_space-append :
    (ws : Text) (c : ℕ) (s : Text)
    → All IsSpace ws
    → is_space c ≡ false
    → skip_space (ws ++ (c ∷ s)) ≡ c ∷ s
unfolding skip_space
skip_space-append [] c s all h = rw h refl
skip_space-append (w ∷ ws) c s all h = rw all.0 (skip_space-append ws c s all.1 h)
