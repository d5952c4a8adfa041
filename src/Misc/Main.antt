-- ===== src/Misc/Main.antt =====
-- tools/misc/Misc.cc, `main`: the tests in turn, over all that they use of LLVM and of the C++
-- library.
pub mod Returns
pub mod Writes
pub mod Sample
pub mod Tests
use snippets_llvm.Base.{ℕ, true, List, Text, codes}
use snippets_llvm.Errs.{Run, write, pure, ◌>>=◌, ◌>>◌}
use snippets_llvm.Misc.Ints.{Errors, test_err}
use snippets_llvm.Misc.Digests.{Files, test_md5}
use snippets_llvm.Misc.Formats.{Formatter, test_format}
use snippets_llvm.Misc.StringRefs.{StringRefs, test_string_ref}
use snippets_llvm.Misc.Twines.{Twines, take_call_back, test_twine}
use snippets_llvm.Misc.Arrays.{ArrayRefs, PackedVectors, test_array_ref, test_packed_vector}
use snippets_llvm.Misc.Switch.{StringSwitch, test_string_switch}
use snippets_llvm.Misc.Shapes.{Doubles, Heap, test_rtti}
use snippets_llvm.Misc.People.{YamlIo}
use snippets_llvm.Misc.Documents.{Output, test_yaml}

-- `pretty_function` is what the compiler puts for `__PRETTY_FUNCTION__` in a function of a name.
pub record Libraries : Type 1 where
  pub pretty_function : Text → Text
  pub errors : Errors
  pub files : Files
  pub formatter : Formatter
  pub string_refs : StringRefs
  pub twines : Twines
  pub array_refs : ArrayRefs
  pub string_switch : StringSwitch
  pub packed_vectors : PackedVectors
  pub doubles : Doubles
  pub yaml : YamlIo
  pub output : Output yaml

module _ (libs : Libraries) where
  open libs use {pretty_function}

  -- The tests after `test_err`, which write to `errs()` only.
  unfoldable pub other_tests : Heap libs.doubles → Run (ℕ × Heap libs.doubles)
  other_tests h = do
    test_md5 libs.files (pretty_function (codes "test_md5"))
    test_format libs.formatter (pretty_function (codes "test_format"))
    test_string_ref libs.string_refs (pretty_function (codes "test_StringRef"))
    take_call_back (test_twine libs.twines (pretty_function (codes "test_Twine"))) true
    test_array_ref libs.array_refs (pretty_function (codes "test_ArrayRef"))
    test_string_switch libs.string_switch (pretty_function (codes "test_StringSwitch"))
    vec1 ← test_packed_vector libs.packed_vectors (pretty_function (codes "test_PackedVector"))
    shapes ← test_rtti libs.doubles (pretty_function (codes "test_rtti")) h
    status ← test_yaml libs.yaml libs.output (pretty_function (codes "test_yaml"))
    pure (0, shapes.1)

  -- What is written to `std::cout`, and what to `errs()` before the program ends.
  unfoldable pub main : List Text → Heap libs.doubles → Text × Run (ℕ × Heap libs.doubles)
  main argv h = let (out, log) = test_err libs.errors argv in (out, (do write log; other_tests h))
