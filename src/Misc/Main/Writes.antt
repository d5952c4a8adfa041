-- ===== src/Misc/Main/Writes.antt =====
-- What the arguments make the tool write.
use snippets_llvm.Base.{List, ◌∷◌, ◌++◌, ◌≡◌, refl, Text, codes, flat_map, map}
use snippets_llvm.Base.Int.{ℤ}
use snippets_llvm.Errs.{Chunk, text}
use snippets_llvm.Misc.Ints.Reports.{IsErrors, Sorts, listed, logged, complaint, test_err_reports}
use snippets_llvm.Misc.Shapes.{Heap}
use snippets_llvm.Misc.Main.{Libraries, main, other_tests}

-- If errors collect messages and log them in order, then, however the tool ends, its arguments
-- fall into those that spell an `int` and the others, in order: `std::cout` gets the numbers of
-- the first, and the log of the others, with one message for each, is the first that is written
-- to `errs()`.
pub main_writes :
    (libs : Libraries) (program : Text) (args : List Text) (h : Heap libs.doubles)
    → IsErrors libs.errors
    → (ints : List ℤ) × (others : List Text) × (rest : List Chunk) × Sorts args ints others
      × ((main libs (program ∷ args) h).0
          ≡ (codes "Ints: " ++ flat_map listed ints) ++ (codes "\n" ++ codes "\n"))
      × ((main libs (program ∷ args) h).1.out ≡ text (logged (map complaint others)) ∷ rest)
unfolding main
main_writes libs program args h laws =
    let (ints, others, sorts, e) = test_err_reports libs.errors laws program args in
    (ints, others, (other_tests libs h).out, sorts, rw e refl, rw e refl)
