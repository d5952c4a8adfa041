-- ===== src/Misc/People.antt =====
-- tools/misc/Person.hh, and `test_yaml` and `test_format` of tools/misc/Misc.cc as far as they use it.
pub mod Elements
pub mod Tests
use snippets_llvm.Base.{
  ℕ, Bool, true, false, Option, none, some, List, [], ◌∷◌, ◌++◌, Text, codes, length, get_elem?,
  not, ltb, if◌then◌else◌,
}
use snippets_llvm.Outcome.{Outcome, ok, fault, fatal_error, undefined}
use snippets_llvm.Streams.{decimal}

-- `age_` is an `unsigned`.
pub record Person : Type 0 where
  pub name_ : Text
  pub age_ : ℕ

-- `yaml::IO` while it writes: what is written after a key with its value.
pub record YamlIo : Type 1 where
  pub Io : Type 0
  pub map_required : Text → Text → Io → Io
  pub map_optional : Text → ℕ → Io → Io

unfoldable pub mapping : (yaml : YamlIo) → Person → yaml.Io → yaml.Io
mapping yaml p io =
    yaml.map_optional (codes "age") p.age_ (yaml.map_required (codes "name") p.name_ io)

unfoldable pub size : List Person → ℕ
size persons = length persons

-- `persons[index]`, which is not checked
abbrev pub at : List Person → ℕ → Outcome Person
at persons index = elim (get_elem? persons index) [ none ↦ fault undefined | some p ↦ ok p ]

unfoldable pub element : List Person → ℕ → Outcome Person
element persons index =
    if not (ltb index (length persons))
    then fault (fatal_error (codes "out of bound"))
    else at persons index

unfoldable pub format : Person → Text
format p = codes "Person(name=" ++ (p.name_ ++ (codes ", age=" ++ (decimal p.age_ ++ codes ")")))
