-- ===== src/Misc/People/Tests.antt =====
-- Two persons.
use snippets_llvm.Base.{List, [], ◌∷◌, ◌≡◌, refl, codes}
use snippets_llvm.Outcome.{ok, fault, fatal_error}
use snippets_llvm.Streams.{decimal, emit}
use snippets_llvm.Misc.People.{Person, element, format}

abbrev two_persons : List Person
two_persons =
    record { name_ = codes "hello"; age_ = 1 } ∷ record { name_ = codes "world"; age_ = 0 } ∷ []

-- The last element, and the first index that is out of bounds
edges :
    (element two_persons 1 ≡ ok (record { name_ = codes "world"; age_ = 0 }))
    × (element two_persons 2 ≡ fault (fatal_error (codes "out of bound")))
unfolding element
edges = (refl, refl)

formatted :
    format (record { name_ = codes "hongxu"; age_ = 18 }) ≡ codes "Person(name=hongxu, age=18)"
unfolding format decimal emit
formatted = refl
