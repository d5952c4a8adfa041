-- ===== src/Misc/Switch/Numbers.antt =====
-- Which number `test_StringSwitch` prints for a text.
use snippets_llvm.Base.{
  Bool, true, false, ◌&&◌, ◌||◌, Option, none, some, [], ◌∷◌, reverse, ◌==◌, ◌≡◌, ◌≢◌, ◌↔◌, ◌⊎◌,
  refl, sym, ap, arith, subst, Text, codes, text_eq, text_eq_iff,
}
use snippets_llvm.Base.Int.{ℤ, pos}
use snippets_llvm.Misc.Switch.{StringSwitch, switch_number}

-- `StringRef::startswith` and `endswith`
unfoldable pub begins_with : Text → Text → Bool
begins_with s [] = true
begins_with [] (d ∷ t) = false
begins_with (c ∷ s) (d ∷ t) = c == d && begins_with s t

unfoldable pub ends_in : Text → Text → Bool
ends_in s t = begins_with (reverse s) (reverse t)

-- The result that a switch holds after one more test.
abbrev pub decided : Option ℤ → Bool → ℤ → Option ℤ
decided (some r) b v = some r
decided none true v = some v
decided none false v = none

abbrev pub or_default : Option ℤ → ℤ → ℤ
or_default none d = d
or_default (some r) d = r

-- A switch holds the result of the first test that its text passes, if there is one.
pub record IsFirstMatch (api : StringSwitch) : Type 0 where
  pub subject : api.Switch → Text
  pub result : api.Switch → Option ℤ
  pub start_is : (s : Text) → (subject (api.start s) ≡ s) × (result (api.start s) ≡ none)
  pub case_is :
      (t : Text) (v : ℤ) (w : api.Switch)
      → (subject (api.case t v w) ≡ subject w)
        × (result (api.case t v w) ≡ decided (result w) (text_eq (subject w) t) v)
  pub cases_is :
      (t u x : Text) (v : ℤ) (w : api.Switch)
      → (subject (api.cases t u x v w) ≡ subject w)
        × (result (api.cases t u x v w)
            ≡ decided
                (result w)
                (text_eq (subject w) t || (text_eq (subject w) u || text_eq (subject w) x))
                v)
  pub ends_with_is :
      (t : Text) (v : ℤ) (w : api.Switch)
      → (subject (api.ends_with t v w) ≡ subject w)
        × (result (api.ends_with t v w) ≡ decided (result w) (ends_in (subject w) t) v)
  pub starts_with_is :
      (t : Text) (v : ℤ) (w : api.Switch)
      → (subject (api.starts_with t v w) ≡ subject w)
        × (result (api.starts_with t v w) ≡ decided (result w) (begins_with (subject w) t) v)
  pub default_is : (d : ℤ) (w : api.Switch) → api.default d w ≡ or_default (result w) d

abbrev first_of : Text → Option ℤ
first_of s =
    decided
      (decided
        (decided
          (decided (decided none (text_eq s (codes "hello")) (pos 1)) (text_eq s (codes "World"))
            (pos 2))
          (text_eq s (codes "nihao") || (text_eq s (codes "shijie") || text_eq s (codes "!")))
          (pos 3))
        (ends_in s (codes "jie")) (pos 4))
      (begins_with s (codes "h")) (pos 5)

-- The number of a text by what it is and how it begins and ends.
abbrev pub Numbering : Text → ℤ → Type 0
Numbering s n =
    ((n ≡ pos 1) ↔ (s ≡ codes "hello"))
    × ((n ≡ pos 2) ↔ (s ≡ codes "World"))
    × ((n ≡ pos 3) ↔ ((s ≡ codes "nihao") ⊎ ((s ≡ codes "shijie") ⊎ (s ≡ codes "!"))))
    × ((n ≡ pos 4) ↔ ((ends_in s (codes "jie") ≡ true) × (s ≢ codes "shijie")))
    × ((n ≡ pos 5) ↔ (
        (begins_with s (codes "h") ≡ true)
        × (s ≢ codes "hello")
        × (ends_in s (codes "jie") ≡ false)))
    × ((n ≡ pos 0) ↔ (
        (begins_with s (codes "h") ≡ false)
        × (ends_in s (codes "jie") ≡ false)
        × (s ≢ codes "World")
        × (s ≢ codes "nihao")
        × (s ≢ codes "!")))

-- Equal texts begin and end alike.
ends_of :
    (t s : Text)
    → s ≡ t
    → (ends_in s (codes "jie") ≡ ends_in t (codes "jie"))
      × (begins_with s (codes "h") ≡ begins_with t (codes "h"))
ends_of t s e = (ap (λ x. ends_in x (codes "jie")) e, ap (λ x. begins_with x (codes "h")) e)

known :
    (ends_in (codes "hello") (codes "jie") ≡ false)
    × (ends_in (codes "World") (codes "jie") ≡ false)
    × (ends_in (codes "nihao") (codes "jie") ≡ false)
    × (ends_in (codes "shijie") (codes "jie") ≡ true)
    × (ends_in (codes "!") (codes "jie") ≡ false)
    × (begins_with (codes "hello") (codes "h") ≡ true)
    × (begins_with (codes "World") (codes "h") ≡ false)
    × (begins_with (codes "nihao") (codes "h") ≡ false)
    × (begins_with (codes "shijie") (codes "h") ≡ false)
    × (begins_with (codes "!") (codes "h") ≡ false)
unfolding ends_in begins_with
known = (refl, refl, refl, refl, refl, refl, refl, refl, refl, refl)

first_of-Numbering : (s : Text) → Numbering s (or_default (first_of s) (pos 0))
first_of-Numbering s = ground (
  arith,
  text_eq_iff s (codes "hello"),
  text_eq_iff s (codes "World"),
  text_eq_iff s (codes "nihao"),
  text_eq_iff s (codes "shijie"),
  text_eq_iff s (codes "!"),
  ends_of (codes "hello") s,
  ends_of (codes "World") s,
  ends_of (codes "nihao") s,
  ends_of (codes "shijie") s,
  ends_of (codes "!") s,
  known,
)

module _ (api : StringSwitch) (laws : IsFirstMatch api) where
  switch_number-first : (s : Text) → switch_number api s ≡ or_default (first_of s) (pos 0)
  unfolding switch_number
  switch_number-first s =
      let w0 = api.start s in
      let (s0, r0) = laws.start_is s in
      let w1 = api.case (codes "hello") (pos 1) w0 in
      let (s1, r1) = laws.case_is (codes "hello") (pos 1) w0 in
      let w2 = api.case (codes "World") (pos 2) w1 in
      let (s2, r2) = laws.case_is (codes "World") (pos 2) w1 in
      let w3 = api.cases (codes "nihao") (codes "shijie") (codes "!") (pos 3) w2 in
      let (s3, r3) = laws.cases_is (codes "nihao") (codes "shijie") (codes "!") (pos 3) w2 in
      let w4 = api.ends_with (codes "jie") (pos 4) w3 in
      let (s4, r4) = laws.ends_with_is (codes "jie") (pos 4) w3 in
      let w5 = api.starts_with (codes "h") (pos 5) w4 in
      let (s5, r5) = laws.starts_with_is (codes "h") (pos 5) w4 in
      rw (laws.default_is (pos 0) w5, r5, s4, r4, s3, r3, s2, r2, s1, r1, s0, r0) refl

  -- If a switch takes the first test that its text passes, `test_StringSwitch` numbers a text 1 for
  -- hello, 2 for World, 3 for nihao, shijie and !, 4 exactly if it ends in jie and is not shijie, 5
  -- exactly if it begins with h, is not hello and does not end in jie, and 0 exactly if it does not
  -- begin with h, does not end in jie, and is none of World, nihao and !.
  pub switch_number-Numbering : (s : Text) → Numbering s (switch_number api s)
  switch_number-Numbering s =
      subst (Numbering s) (sym (switch_number-first s)) (first_of-Numbering s)
