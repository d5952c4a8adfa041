-- ===== src/Misc/Documents.antt =====
-- tools/misc/Misc.cc, `test_yaml`: the traits of Person.hh as `llvm::yaml::Output` calls them.
pub mod Sequences
use snippets_llvm.Base.{ℕ, List, [], ◌∷◌, ◌++◌, Text, codes}
use snippets_llvm.Outcome.{Outcome, ok, fault}
use snippets_llvm.Errs.{Run, lift, write, pure, ◌>>=◌, ◌>>◌}
use snippets_llvm.Misc.People.{Person, YamlIo, mapping, size, element}

-- `yaml::Output::operator<<` of a sequence, over its traits: the number of elements, and at an index
-- what the mapping of the element there does.
pub record Output (yaml : YamlIo) : Type 0 where
  pub write_sequence : ℕ → (ℕ → Outcome (yaml.Io → yaml.Io)) → Outcome Text

-- The two persons of `test_yaml`; the age is 0 where the constructor is given none.
abbrev pub persons : List Person
persons =
    record { name_ = codes "hello"; age_ = 1 } ∷ record { name_ = codes "world"; age_ = 0 } ∷ []

module _ (yaml : YamlIo) (output : Output yaml) where
  open output use {write_sequence}

  -- `yamlize` of `SequenceTraits::element`, with `MappingTraits::mapping`
  unfoldable pub map_element : List Person → ℕ → Outcome (yaml.Io → yaml.Io)
  map_element persons index = elim (element persons index) [
    | ok p ↦ ok (mapping yaml p)
    | fault e ↦ fault e
  ]

  -- `yout << persons`
  unfoldable pub write_persons : List Person → Outcome Text
  write_persons persons = write_sequence (size persons) (map_element persons)

  -- `__PRETTY_FUNCTION__` is the compiler's.
  unfoldable pub test_yaml : Text → Run ℕ
  test_yaml pretty_function = do
    write (codes "\n\n===" ++ (pretty_function ++ codes "\n"))
    document ← lift (write_persons persons)
    write document
    pure 0
