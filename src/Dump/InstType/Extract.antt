-- ===== src/Dump/InstType/Extract.antt =====
-- What `InstTypeStr` cuts out.
use mathlib.Core.Path.{ap₂}
use snippets_llvm.Base.{
  ℕ, ◌+◌, ◌-◌, ◌%◌, ◌<◌, some, [], ◌∷◌, ◌++◌, ◌≡◌, ◌≢◌, refl, ap, ◌∙◌, arith, Text, codes, length,
  take, All,
}
use snippets_llvm.Outcome.{ok}
use snippets_llvm.Dump.InstType.{size_mod, find, index, substr, inst_type_str}

-- No `>`.
abbrev pub NoClose : Text → Type 0
NoClose = All (λ c. c ≢ b'>')

find_close : (x rest : Text) → NoClose x → find (codes ">") (x ++ (b'>' ∷ rest)) ≡ some (length x)
unfolding find
find_close [] rest h = refl
find_close (c ∷ x) rest h = ground (arith, find_close x rest h.1)

take-append : (x rest : Text) → take (length x) (x ++ rest) ≡ x
take-append [] rest = refl
take-append (c ∷ x) rest = ap (◌∷◌ c) (take-append x rest)

find_open : (t : Text) → find (codes "isa<") (codes "isa<" ++ t) ≡ some 0
unfolding find
find_open t = refl

find_stop :
    (x rest : Text)
    → NoClose x
    → find (codes ">") (codes "isa<" ++ (x ++ (b'>' ∷ rest))) ≡ some (length x + 4)
unfolding find
find_stop x rest h = ground (arith, find_close x rest h)

substr-name :
    (x rest : Text) (n : ℕ) → n ≡ length x → substr (codes "isa<" ++ (x ++ rest)) 4 n ≡ ok x
unfolding substr
substr-name x rest n e = ground (arith, take-append x rest)

-- From the text of a test `isa<Name>`, whatever follows it, the name is cut out, as long as the
-- text's positions fit a `size_t`.
pub inst_type_str-isa :
    (x rest : Text)
    → NoClose x
    → length x + 4 < size_mod
    → inst_type_str (codes "isa<" ++ (x ++ (b'>' ∷ rest))) ≡ ok x
unfolding inst_type_str
inst_type_str-isa x rest h fits =
    let s = codes "isa<" ++ (x ++ (b'>' ∷ rest)) in
    ap₂
      (λ i j.
        substr s ((index i + 4) % size_mod)
          ((index j + size_mod - (index i + 4) % size_mod) % size_mod))
      (find_open (x ++ (b'>' ∷ rest))) (find_stop x rest h)
    ∙ substr-name x (b'>' ∷ rest) _ (omega arith)
