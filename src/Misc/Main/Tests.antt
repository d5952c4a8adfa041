-- ===== src/Misc/Main/Tests.antt =====
-- The tool on three arguments, over functions that are as documented.
use snippets_llvm.Base.{
  ℕ, All, some, true, false, List, [], ◌∷◌, ◌++◌, ◌≡◌, ◌↔◌, refl, Text, codes, flat_map, map,
}
use snippets_llvm.Base.Int.{ℤ}
use snippets_llvm.Outcome.{ok, fault, undefined}
use snippets_llvm.Errs.{Chunk, text}
use snippets_llvm.Misc.Ints.Tests.{list_errors-IsErrors}
use snippets_llvm.Misc.Ints.Reports.{Sorts, listed, logged, complaint}
use snippets_llvm.Misc.Twines.{
  test_twine, dump_with_new_line, chars_and_temporary, temporary_and_chars,
}
use snippets_llvm.Misc.Twines.Reads.{IsReadable}
use snippets_llvm.Misc.Shapes.{Heap}
use snippets_llvm.Misc.Shapes.Casts.{IsShown}
use snippets_llvm.Misc.Shapes.Tests.{whole, start, start-IsFresh}
use snippets_llvm.Misc.Main.{main}
use snippets_llvm.Misc.Main.Sample.{
  sample, sample-IsDocumented, ropes, text_io, text_output, text_output-IsOutput,
}
use snippets_llvm.Misc.Main.Writes.{main_writes}
use snippets_llvm.Misc.Main.Returns.{main_returns}
use snippets_llvm.Misc.People.{mapping}
use snippets_llvm.Misc.Documents.{write_persons}
use snippets_llvm.Misc.Documents.Sequences.{write_persons-document}
use snippets_llvm.Streams.{decimal, emit}

abbrev arguments : List Text
arguments = codes "+7" ∷ codes "x" ∷ []

-- Where temporaries go at the end of their statement, the first twine of one is not read.
twines_printed : test_twine (ropes false) (codes "f") true ≡ record {
  out = map text (
      codes "\n\n===f(1)\n"
      ∷ codes "t_e\t"
      ∷ []
      ∷ codes "\t>>><<<\n"
      ∷ codes "t_sr\t"
      ∷ codes "hello world"
      ∷ codes "\t>>>hello world<<<\n"
      ∷ codes "t_s\t"
      ∷ codes "s"
      ∷ codes "\t>>>s<<<\n"
      ∷ codes "t_c\t"
      ∷ codes "c"
      ∷ codes "\tMULTIPLE\n"
      ∷ codes "t_ii\t"
      ∷ codes "12345"
      ∷ codes "\tMULTIPLE\n"
      ∷ codes "t_src\t"
      ∷ codes "hello worldc"
      ∷ codes "\tMULTIPLE\n"
      ∷ codes "t_srcs\t"
      ∷ codes "hello worldcs"
      ∷ codes "\tMULTIPLE\n"
      ∷ codes "t__csr\t"
      ∷ []);
  end = fault undefined;
}
unfolding test_twine dump_with_new_line decimal emit
twines_printed = refl

main_writes_example :
    (ints : List ℤ) × (others : List Text) × (rest : List Chunk) × Sorts arguments ints others
    × ((main (sample true) (codes "misc" ∷ arguments) start).0
        ≡ (codes "Ints: " ++ flat_map listed ints) ++ (codes "\n" ++ codes "\n"))
    × ((main (sample true) (codes "misc" ∷ arguments) start).1.out
        ≡ text (logged (map complaint others)) ∷ rest)
main_writes_example = main_writes (sample true) (codes "misc") arguments start list_errors-IsErrors

main_returns_example :
    ((h' : Heap whole) × ((main (sample true) (codes "misc" ∷ arguments) start).1.end ≡ ok (0, h'))
      × ((p : ℕ) → h'.objects p ≡ start.objects p))
    ↔ ((IsReadable (ropes true) (chars_and_temporary (ropes true))
          × IsReadable (ropes true) (temporary_and_chars (ropes true)))
        × All (IsShown whole) (some 1 ∷ some 2 ∷ []))
main_returns_example =
    main_returns (sample true) (codes "misc" ∷ arguments) start (sample-IsDocumented true)
      start-IsFresh

write_persons-document_example :
    write_persons text_io text_output
      (record { name_ = codes "hello"; age_ = 1 } ∷ record { name_ = codes "world"; age_ = 0 } ∷ [])
    ≡ ok (codes "name: hello\nage: 1\nname: world\nage: 0\n")
unfolding mapping decimal emit
write_persons-document_example =
    write_persons-document text_io text_output text_output-IsOutput
      (record { name_ = codes "hello"; age_ = 1 } ∷ record { name_ = codes "world"; age_ = 0 } ∷ [])
