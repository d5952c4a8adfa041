-- ===== src/Streams/Reads.antt =====
-- `>>` reads an `int` to the end of a text exactly if the text spells it.
use snippets_llvm.Base.{
  ℕ, Bool, true, false, [], ◌∷◌, ◌++◌, ◌≡◌, ◌≢◌, ◌↔◌, refl, sym, subst, ap, ◌∙◌, arith, Text, codes,
  All, Bool-cases, inl, inr, ◌==◌, ==_iff,
}
use snippets_llvm.Base.Int.{ℤ, InRange, in_range}
use snippets_llvm.Streams.{
  int_bound, is_space, is_digit, Sign, plus, minus, signed, got, ranged, is_nil, scan,
  extract_digits, extract_signed, skip_space, extract_int,
}
use snippets_llvm.Streams.Scans.{
  IsSpace, IsDigit, number, SignText, unmarked, plus_mark, minus_mark, Spells, extract_digits_sound,
  extract_digits_complete, skip_space_sound, skip_space-append, in_range_iff,
}

-- A text behind white space that spells an integer.
record SpellsSigned (s : Text) (z : ℤ) : Type 0 where
  sign : Sign
  mark : Text
  digits : Text
  whole : s ≡ mark ++ digits
  marks : SignText sign mark
  some_digits : digits ≢ []
  all_digits : All IsDigit digits
  exact : z ≡ signed sign (number 0 digits)

spells_signed :
    (sign : Sign) (mark digits s : Text) (z : ℤ)
    → SignText sign mark
    → s ≡ mark ++ digits
    → extract_digits sign digits ≡ got z true
    → SpellsSigned s z × InRange int_bound z
spells_signed sign mark digits s z m w h =
    let (ne, all, exact, fits) = extract_digits_sound sign digits z h in
    (
      record {
        sign = sign;
        mark = mark;
        digits = digits;
        whole = w;
        marks = m;
        some_digits = ne;
        all_digits = all;
        exact = exact;
      },
      fits,
    )

extract_signed_sound :
    (s : Text) (z : ℤ) → extract_signed s ≡ got z true → SpellsSigned s z × InRange int_bound z
unfolding extract_signed
extract_signed_sound [] z h = cc
extract_signed_sound (c ∷ s) z h = elim (Bool-cases (c == b'-')) [
  | inl m ↦
      spells_signed minus (codes "-") s (c ∷ s) z minus_mark (ap (λ d. d ∷ s) ((==_iff c b'-').0 m))
        (rw m at h)
  | inr m ↦ elim (Bool-cases (c == b'+')) [
    | inl p ↦
        spells_signed plus (codes "+") s (c ∷ s) z plus_mark (ap (λ d. d ∷ s) ((==_iff c b'+').0 p))
          (rw (m, p) at h)
    | inr p ↦ spells_signed plus [] (c ∷ s) (c ∷ s) z unmarked refl (rw (m, p) at h)
  ]
]

-- A digit is neither white space nor a sign.
digit_apart :
    (c : ℕ)
    → is_digit c ≡ true
    → (is_space c ≡ false) × ((c == b'-') ≡ false) × ((c == b'+') ≡ false)
digit_apart c h = ground arith

extract_marked :
    (sign : Sign) (mark : Text) (c : ℕ) (ds ws : Text)
    → SignText sign mark
    → All IsSpace ws
    → is_digit c ≡ true
    → extract_int (ws ++ (mark ++ (c ∷ ds))) ≡ extract_digits sign (c ∷ ds)
unfolding extract_int extract_signed
extract_marked sign mark c ds ws unmarked all d =
    let (no_space, no_minus, no_plus) = digit_apart c d in
    rw (skip_space-append ws c ds all no_space, no_minus, no_plus) refl
extract_marked sign mark c ds ws plus_mark all d =
    rw (skip_space-append ws b'+' (c ∷ ds) all refl) refl
extract_marked sign mark c ds ws minus_mark all d =
    rw (skip_space-append ws b'-' (c ∷ ds) all refl) refl

extract_int_complete :
    (sign : Sign) (mark digits space : Text)
    → SignText sign mark
    → All IsSpace space
    → digits ≢ []
    → All IsDigit digits
    → InRange int_bound (signed sign (number 0 digits))
    → extract_int (space ++ (mark ++ digits)) ≡ got (signed sign (number 0 digits)) true
extract_int_complete sign mark [] space m sp ne all fits = absurd (ne refl)
extract_int_complete sign mark (c ∷ ds) space m sp ne all fits =
    extract_marked sign mark c ds space m sp all.0
    ∙ extract_digits_complete sign (c ∷ ds) ne all fits

-- `>>` reads an `int` and meets the end of the text exactly if the text is white space, a sign or
-- none, and digits that spell this number, and the number is an `int`.
pub extract_int_iff :
    (s : Text) (z : ℤ) → (extract_int s ≡ got z true) ↔ (Spells s z × InRange int_bound z)
unfolding extract_int
extract_int_iff s z = (forth, back)
  where
    forth : extract_int s ≡ got z true → Spells s z × InRange int_bound z
    forth h =
        let (ws, split, all) = skip_space_sound s in
        let (signed_part, fits) = extract_signed_sound (skip_space s) z h in
        (
          record {
            space = ws;
            sign = signed_part.sign;
            mark = signed_part.mark;
            digits = signed_part.digits;
            whole = split ∙ ap (λ t. ws ++ t) signed_part.whole;
            all_space = all;
            marks = signed_part.marks;
            some_digits = signed_part.some_digits;
            all_digits = signed_part.all_digits;
            exact = signed_part.exact;
          },
          fits,
        )

    back : Spells s z × InRange int_bound z → extract_int s ≡ got z true
    back (p, fits) =
        ap extract_int p.whole
        ∙ extract_int_complete p.sign p.mark p.digits p.space p.marks p.all_space p.some_digits
            p.all_digits (subst (InRange int_bound) p.exact fits)
        ∙ ap (λ y. got y true) (sym p.exact)

ranged-InRange : (z y : ℤ) (b eof : Bool) → ranged z b ≡ got y eof → InRange int_bound y
ranged-InRange z y b eof h = elim (Bool-cases (in_range int_bound z)) [
  | inl fits ↦
      let same : z ≡ y = cc (rw fits at h) in
      subst (InRange int_bound) same ((in_range_iff z).0 fits)
  | inr over ↦ absurd (cc (rw over at h))
]

extract_digits-InRange :
    (sign : Sign) (s : Text) (z : ℤ) (eof : Bool)
    → extract_digits sign s ≡ got z eof
    → InRange int_bound z
unfolding extract_digits
extract_digits-InRange sign [] z eof h = absurd (cc)
extract_digits-InRange sign (c ∷ s) z eof h = elim (Bool-cases (is_digit c)) [
  | inl d ↦
      let (n, rest) = scan (c ∷ s) 0 in
      ranged-InRange (signed sign n) z (is_nil rest) eof (rw d at h)
  | inr d ↦ absurd (cc (rw d at h))
]

-- Whatever is read is an `int`.
pub extract_int-InRange :
    (s : Text) (z : ℤ) (eof : Bool) → extract_int s ≡ got z eof → InRange int_bound z
unfolding extract_int extract_signed
extract_int-InRange s z eof h = go (skip_space s) h
  where
    go : (t : Text) → extract_signed t ≡ got z eof → InRange int_bound z
    go [] e = absurd (cc)
    go (c ∷ t) e = elim (Bool-cases (c == b'-')) [
      | inl m ↦ extract_digits-InRange minus t z eof (rw m at e)
      | inr m ↦ elim (Bool-cases (c == b'+')) [
        | inl p ↦ extract_digits-InRange plus t z eof (rw (m, p) at e)
        | inr p ↦ extract_digits-InRange plus (c ∷ t) z eof (rw (m, p) at e)
      ]
    ]
