-- ===== src/Misc/StringRefs/Splits.antt =====
-- Where `StringRef::split` splits, by what its documentation says, and what `test_StringRef` prints.
use mathlib.Core.List.{append_cancel_left}
use snippets_llvm.Base.{
  ◌∙◌, map, ℕ, ◌≤◌, ◌+◌, Option, none, some, [], ◌∷◌, ◌++◌, ◌≡◌, ◌≢◌, refl, arith, Text, codes,
  length, ap, ◌==◌, if◌then◌else◌, sym, Option-cases, inl, inr,
}
use snippets_llvm.Outcome.{ok}
use snippets_llvm.Errs.{text}
use snippets_llvm.Streams.{decimal}
use snippets_llvm.Misc.StringRefs.{StringRefs, write_parts, test_string_ref}

-- The documentation: if the separator is in the text, the text is the left part, the separator and
-- the right part, which is as long as possible; if not, the left part is the text and the right part
-- is empty.
pub data IsSplit (s sep : Text) : Text × Text → Type 0 where
  found :
      (l r : Text)
      → s ≡ l ++ (sep ++ r)
      → ((l' r' : Text) → s ≡ l' ++ (sep ++ r') → length r' ≤ length r)
      → IsSplit s sep (l, r)
  absent : ((l' r' : Text) → s ≢ l' ++ (sep ++ r')) → IsSplit s sep (s, [])

pub record IsSplitter (refs : StringRefs) : Type 0 where
  pub by_text : (s sep : Text) → IsSplit s sep (refs.split s sep)
  pub by_char : (s : Text) (c : ℕ) → IsSplit s (c ∷ []) (refs.split_char s c)

-- What follows a text in front of another.
strip : Text → Text → Option Text
strip [] s = some s
strip (c ∷ p) [] = none
strip (c ∷ p) (d ∷ s) = let rest = strip p s in if c == d then rest else none

-- The split at the first place where the separator stands.
unfoldable pub first_split : Text → Text → Text × Text
unfolding strip
first_split sep [] = elim (strip sep []) [ some r ↦ ([], r) | none ↦ ([], []) ]
first_split sep (c ∷ s) =
    let (l, r) = first_split sep s in
    elim (strip sep (c ∷ s)) [ some rest ↦ ([], rest) | none ↦ (c ∷ l, r) ]

strip-append : (p r : Text) → strip p (p ++ r) ≡ some r
unfolding strip
strip-append [] r = refl
strip-append (c ∷ p) r = ground (arith, strip-append p r)

append_of_strip : (p s r : Text) → strip p s ≡ some r → s ≡ p ++ r
unfolding strip
append_of_strip [] s r h = cc
append_of_strip (c ∷ p) [] r h = cc
append_of_strip (c ∷ p) (d ∷ s) r h = ground (arith, append_of_strip p s r)

length-append : (xs ys : Text) → length (xs ++ ys) ≡ length xs + length ys
length-append [] ys = omega arith
length-append (x ∷ xs) ys = omega (arith, length-append xs ys)

-- A separator that stands in front is where the text is split.
split_here :
    (sep s r : Text) (parts : Text × Text)
    → strip sep s ≡ some r
    → IsSplit s sep parts
    → parts ≡ ([], r)
split_here sep s r parts e (found [] r' split most) =
    let same = append_cancel_left sep r' r (sym split ∙ append_of_strip sep s r e) in
    ap (λ t. ([], t)) same
split_here sep s r parts e (found (c ∷ l) r' split most) = absurd (
    omega (
      arith,
      most [] r (append_of_strip sep s r e),
      ap length (sym split ∙ append_of_strip sep s r e),
      length-append sep r,
      length-append l (sep ++ r'),
      length-append sep r',
    ))
split_here sep s r parts e (absent never) = absurd (never [] r (append_of_strip sep s r e))

-- If none stands in front, the text is split after its first character.
IsSplit-later :
    (sep : Text) (c : ℕ) (s : Text) (parts : Text × Text)
    → strip sep (c ∷ s) ≡ none
    → IsSplit (c ∷ s) sep parts
    → (rest : Text × Text) × (parts ≡ (c ∷ rest.0, rest.1)) × IsSplit s sep rest
IsSplit-later sep c s parts e (found [] r split most) = absurd (cc (strip-append sep r, split, e))
IsSplit-later sep c s parts e (found (d ∷ l) r split most) =
    ((l, r), cc split, found l r (cc split) (λ l' r' e'. most (c ∷ l') r' (ap (λ t. c ∷ t) e')))
IsSplit-later sep c s parts e (absent never) =
    ((s, []), refl, absent (λ l' r' e'. never (c ∷ l') r' (ap (λ t. c ∷ t) e')))

split_nowhere :
    (sep : Text) (parts : Text × Text)
    → strip sep [] ≡ none
    → IsSplit [] sep parts
    → parts ≡ ([], [])
split_nowhere sep parts e (found [] r split most) = absurd (cc (strip-append sep r, split, e))
split_nowhere sep parts e (found (c ∷ l) r split most) = absurd (cc split)
split_nowhere sep parts e (absent never) = refl

-- Whatever splits as documented splits at the first place where the separator stands.
pub first_split_unique :
    (sep s : Text) (parts : Text × Text) → IsSplit s sep parts → parts ≡ first_split sep s
unfolding first_split
first_split_unique sep [] parts h = elim (Option-cases (strip sep [])) [
  | inl e ↦ rw (e, first_split) (split_nowhere sep parts e h)
  | inr (r, e) ↦ rw (e, first_split) (split_here sep [] r parts e h)
]
first_split_unique sep (c ∷ s) parts h = elim (Option-cases (strip sep (c ∷ s))) [
  | inl e ↦
      let (rest, same, later) = IsSplit-later sep c s parts e h in
      rw (e, first_split) (same ∙ ap (λ r. (c ∷ r.0, r.1)) (first_split_unique sep s rest later))
  | inr (r, e) ↦ rw (e, first_split) (split_here sep (c ∷ s) r parts e h)
]

-- The rest behind a separator is as long as possible if nothing stands before it.
longest_rest :
    (sep s r : Text) → s ≡ sep ++ r → (l' r' : Text) → s ≡ l' ++ (sep ++ r') → length r' ≤ length r
longest_rest sep s r e l' r' e' = omega (
  arith,
  ap length (sym e ∙ e'),
  length-append sep r,
  length-append l' (sep ++ r'),
  length-append sep r',
)

absent_nil : (sep : Text) → strip sep [] ≡ none → (l' r' : Text) → [] ≢ l' ++ (sep ++ r')
absent_nil sep e [] r' h = cc (strip-append sep r', h, e)
absent_nil sep e (c ∷ l') r' h = cc h

IsSplit-cons :
    (sep : Text) (c : ℕ) (s : Text) (parts : Text × Text)
    → strip sep (c ∷ s) ≡ none
    → IsSplit s sep parts
    → IsSplit (c ∷ s) sep (c ∷ parts.0, parts.1)
IsSplit-cons sep c s parts e (found l r split most) = found (c ∷ l) r (ap (λ t. c ∷ t) split) later
  where
    later : (l' r' : Text) → c ∷ s ≡ l' ++ (sep ++ r') → length r' ≤ length r
    later [] r' h = absurd (cc (strip-append sep r', h, e))
    later (d ∷ l') r' h = most l' r' (cc h)
IsSplit-cons sep c s parts e (absent never) = absent later
  where
    later : (l' r' : Text) → c ∷ s ≢ l' ++ (sep ++ r')
    later [] r' h = cc (strip-append sep r', h, e)
    later (d ∷ l') r' h = never l' r' (cc h)

-- The split at the first place is as documented.
pub first_split-IsSplit : (sep s : Text) → IsSplit s sep (first_split sep s)
unfolding first_split
first_split-IsSplit sep [] = elim (Option-cases (strip sep [])) [
  | inl e ↦ rw (e, first_split) (absent (absent_nil sep e))
  | inr (r, e) ↦
      let whole = append_of_strip sep [] r e in
      rw (e, first_split) (found [] r whole (longest_rest sep [] r whole))
]
first_split-IsSplit sep (c ∷ s) = elim (Option-cases (strip sep (c ∷ s))) [
  | inl e ↦ rw (e, first_split) (IsSplit-cons sep c s _ e (first_split-IsSplit sep s))
  | inr (r, e) ↦
      let whole = append_of_strip sep (c ∷ s) r e in
      rw (e, first_split) (found [] r whole (longest_rest sep (c ∷ s) r whole))
]

-- What `test_StringRef` prints, if texts are split as documented.
pub test_string_ref_lines :
    (refs : StringRefs) (pretty_function : Text)
    → IsSplitter refs
    → test_string_ref refs pretty_function ≡ record {
      out = map text (
          (codes "\n\n===" ++ (pretty_function ++ codes "\n"))
          ∷ codes "hello\n"
          ∷ (codes "hash: " ++ (decimal (refs.hash_value (codes "hello")) ++ codes "\n"))
          ∷ codes "he\tlo\n"
          ∷ codes "he\to\n"
          ∷ []);
      end = ok tt;
    }
unfolding test_string_ref write_parts first_split
test_string_ref_lines refs pretty_function splits =
    rw
      (
        first_split_unique (b'l' ∷ []) (codes "hello") _ (splits.by_char (codes "hello") b'l'),
        first_split_unique (codes "ll") (codes "hello") _
            (splits.by_text (codes "hello") (codes "ll")),
      )
      refl
