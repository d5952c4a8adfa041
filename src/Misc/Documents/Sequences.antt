-- ===== src/Misc/Documents/Sequences.antt =====
-- What is written of a sequence of persons.
use snippets_llvm.Base.{
  ℕ, zero, suc, ◌<◌, some, List, [], ◌∷◌, ◌≡◌, refl, arith, Text, map, length, get_elem?,
}
use snippets_llvm.Outcome.{Outcome, ok}
use snippets_llvm.Misc.People.{Person, YamlIo, mapping, size}
use snippets_llvm.Misc.People.Elements.{element-in_bounds}
use snippets_llvm.Misc.Documents.{Output, map_element, write_persons, test_yaml, persons}

module _ (yaml : YamlIo) where
  open yaml use {Io}

  -- The documentation: the elements at the indices below the number of elements are mapped, in
  -- order, so where all of them are there, the document is made of what they do.
  pub record IsOutput (output : Output yaml) : Type 0 where
    pub document : List (Io → Io) → Text
    pub in_order :
        (steps : List (Io → Io)) (at : ℕ → Outcome (Io → Io))
        → ((i : ℕ) (step : Io → Io) → get_elem? steps i ≡ some step → at i ≡ ok step)
        → output.write_sequence (length steps) at ≡ ok (document steps)

  get_elem?-map :
      (ps : List Person) (i : ℕ) (step : Io → Io)
      → get_elem? (map (mapping yaml) ps) i ≡ some step
      → (p : Person) × (get_elem? ps i ≡ some p) × (mapping yaml p ≡ step)
  get_elem?-map [] i step h = absurd (cc h)
  get_elem?-map (p ∷ ps) zero step h = (p, refl, cc h)
  get_elem?-map (p ∷ ps) (suc i) step h = get_elem?-map ps i step h

  -- An index at which a person stands is in bounds.
  below_of_get : (ps : List Person) (i : ℕ) (p : Person) → get_elem? ps i ≡ some p → i < size ps
  unfolding size
  below_of_get [] i p h = absurd (cc h)
  below_of_get (q ∷ ps) zero p h = omega arith
  below_of_get (q ∷ ps) (suc i) p h = omega (arith, below_of_get ps i p h)

  length-map : (ps : List Person) → length (map (mapping yaml) ps) ≡ length ps
  length-map [] = refl
  length-map (p ∷ ps) = omega (arith, length-map ps)

  module _ (output : Output yaml) (laws : IsOutput output) where
    map_element-mapping :
        (ps : List Person) (i : ℕ) (step : Io → Io)
        → get_elem? (map (mapping yaml) ps) i ≡ some step
        → map_element yaml output ps i ≡ ok step
    unfolding map_element
    map_element-mapping ps i step h =
        let (p, there, same) = get_elem?-map ps i step h in
        let (q, there', yields) = (element-in_bounds ps i).0.0 (below_of_get ps i p there) in
        rw (yields, map_element) (cc (there, there', same))

    -- If the document of a sequence is made of what the elements below its size do, in order,
    -- where all of them are there, then writing a sequence of persons never stops with `out of
    -- bound`: it ends in the document made of the mapping of each person, in order.
    pub write_persons-document :
        (ps : List Person)
        → write_persons yaml output ps ≡ ok (laws.document (map (mapping yaml) ps))
    unfolding write_persons size
    write_persons-document ps =
        rw (write_persons, size, ← length-map ps)
          (laws.in_order (map (mapping yaml) ps) _ (map_element-mapping ps))

    pub test_yaml_returns :
        (pretty_function : Text) → (test_yaml yaml output pretty_function).end ≡ ok 0
    unfolding test_yaml
    test_yaml_returns pretty_function = rw (write_persons-document persons) refl
