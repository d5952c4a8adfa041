-- ===== src/Misc/Main/Returns.antt =====
-- When the tool returns.
use snippets_llvm.Base.{
  ℕ, List, [], ◌∷◌, ◌≡◌, ◌↔◌, refl, Text, codes, true, some, suc, All, inl, inr,
}
use snippets_llvm.Outcome.{ok, Outcome-cases}
use snippets_llvm.Errs.{Run, then_run, pure, ◌>>=◌}
use snippets_llvm.Misc.Digests.{test_md5_returns}
use snippets_llvm.Misc.Formats.{IsFormatter, test_format_lines}
use snippets_llvm.Misc.StringRefs.Splits.{IsSplitter, test_string_ref_lines}
use snippets_llvm.Misc.Twines.{take_call_back, chars_and_temporary, temporary_and_chars}
use snippets_llvm.Misc.Twines.Reads.{IsTwine, IsReadable, test_twine_returns}
use snippets_llvm.Misc.Arrays.{IsSized, test_array_ref_lines, test_packed_vector_returns}
use snippets_llvm.Misc.Switch.{test_string_switch, print_numbers, StringSwitch}
use snippets_llvm.Misc.Shapes.{Heap, test_rtti}
use snippets_llvm.Misc.Documents.{test_yaml}
use snippets_llvm.Misc.Shapes.Frees.{IsFresh, test_rtti-IsShown, test_rtti-frees}
use snippets_llvm.Misc.Shapes.Casts.{IsShown}
use snippets_llvm.Errs.Ends.{first_returns}
use snippets_llvm.Misc.Documents.Sequences.{IsOutput, test_yaml_returns}
use snippets_llvm.Misc.Main.{Libraries, main, other_tests}

-- What the documentation says of all that the tests after `test_err` use.
pub record IsDocumented (libs : Libraries) : Type 0 where
  pub formatter : IsFormatter libs.formatter
  pub string_refs : IsSplitter libs.string_refs
  pub twines : IsTwine libs.twines
  pub array_refs : IsSized libs.array_refs
  pub output : IsOutput libs.yaml libs.output

print_numbers_returns :
    (api : StringSwitch) (strs : List Text) → (print_numbers api strs).end ≡ ok tt
unfolding print_numbers
print_numbers_returns api [] = refl
print_numbers_returns api (str ∷ strs) = print_numbers_returns api strs

test_string_switch_returns :
    (api : StringSwitch) (pretty_function : Text)
    → (test_string_switch api pretty_function).end ≡ ok tt
unfolding test_string_switch
test_string_switch_returns api pretty_function = print_numbers_returns api _

-- The last two tests, where the second one returns.
last_tests :
    (libs : Libraries) (m : Run (ℕ × Heap libs.doubles)) (k : Run ℕ) (r : ℕ × Heap libs.doubles)
    → (then_run m.out m.end (λ shapes. k >>= λ status. pure (0, shapes.1))).end ≡ ok r
    → (s : ℕ × Heap libs.doubles) × (m.end ≡ ok s)
last_tests libs m k r h = elim (Outcome-cases m.end) [
  | inl done ↦ done
  | inr (x, e) ↦ absurd (cc (rw e at h))
]

-- With all that it uses as documented, and nothing at the heap's addresses to come, the tool returns
-- 0 with the heap as it was before, whatever its arguments are, exactly if the two twines that
-- `test_Twine` makes of temporaries can still be read, and `formatv` makes a text of each of the two
-- pointers of `test_rtti` by its pattern without an index.
pub main_returns :
    (libs : Libraries) (argv : List Text) (h : Heap libs.doubles)
    → IsDocumented libs
    → IsFresh libs.doubles h
    → ((h' : Heap libs.doubles) × ((main libs argv h).1.end ≡ ok (0, h'))
        × ((p : ℕ) → h'.objects p ≡ h.objects p))
      ↔ ((IsReadable libs.twines (chars_and_temporary libs.twines)
            × IsReadable libs.twines (temporary_and_chars libs.twines))
          × All (IsShown libs.doubles) (some h.next ∷ some (suc h.next) ∷ []))
unfolding main other_tests take_call_back
main_returns libs argv h laws fresh =
    let pretty = libs.pretty_function in
    let readable = test_twine_returns libs.twines (pretty (codes "test_Twine")) true laws.twines in
    let frees = test_rtti-frees libs.doubles (pretty (codes "test_rtti")) h fresh in
    rw
      (
        test_md5_returns libs.files (pretty (codes "test_md5")),
        test_format_lines libs.formatter (pretty (codes "test_format")) laws.formatter,
        test_string_ref_lines libs.string_refs (pretty (codes "test_StringRef")) laws.string_refs,
        test_array_ref_lines libs.array_refs (pretty (codes "test_ArrayRef")) laws.array_refs,
        test_string_switch_returns libs.string_switch (pretty (codes "test_StringSwitch")),
        test_packed_vector_returns libs.packed_vectors (pretty (codes "test_PackedVector")),
      )
      (
        λ (h', done, same).
            let r = readable.0 (first_returns _ _ _ done) in
            let (s, e) =
              last_tests libs (test_rtti libs.doubles (pretty (codes "test_rtti")) h)
                (test_yaml libs.yaml libs.output (pretty (codes "test_yaml"))) (0, h')
                (rw (readable.1 r) at done) in
            (r, test_rtti-IsShown libs.doubles (pretty (codes "test_rtti")) h s e),
        λ (r, shown).
            let (h', freed, same) = frees.1 shown in
            (
              h',
              rw
                  (
                    readable.1 r,
                    freed,
                    test_yaml_returns libs.yaml libs.output laws.output
                        (pretty (codes "test_yaml")),
                  )
                  refl,
              same,
            ),
      )
