-- ===== src/Misc/People/Elements.antt =====
-- The elements of a sequence of persons.
use snippets_llvm.Base.{
  ℕ, zero, suc, ◌<◌, ◌≤◌, none, some, List, [], ◌∷◌, ◌≡◌, ◌↔◌, ◌≢◌, refl, arith, codes, length,
  get_elem?,
}
use snippets_llvm.Outcome.{ok, fault, fatal_error, undefined}
use snippets_llvm.Misc.People.{Person, size, element}

get_elem?-length :
    (ps : List Person) (i : ℕ)
    → (i < length ps → (p : Person) × (get_elem? ps i ≡ some p))
      × (length ps ≤ i → get_elem? ps i ≡ none)
get_elem?-length [] i = (λ h. absurd (omega arith), λ h. refl)
get_elem?-length (p ∷ ps) zero = (λ h. (p, refl), λ h. absurd (omega arith))
get_elem?-length (p ∷ ps) (suc i) =
    let (below, above) = get_elem?-length ps i in
    (λ h. below (omega arith), λ h. above (omega arith))

-- The indices below `size` are those at which `element` yields a person, the one that stands there;
-- at all others it stops the program with `out of bound`, and it never reads out of range.
pub element-in_bounds :
    (ps : List Person) (i : ℕ)
    → ((i < size ps) ↔ ((p : Person) × (get_elem? ps i ≡ some p) × (element ps i ≡ ok p)))
      × ((size ps ≤ i) ↔ (element ps i ≡ fault (fatal_error (codes "out of bound"))))
      × (element ps i ≢ fault undefined)
unfolding element size
element-in_bounds ps i = ground (arith, get_elem?-length ps i)
