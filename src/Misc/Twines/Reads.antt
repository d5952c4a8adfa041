-- ===== src/Misc/Twines/Reads.antt =====
-- When `test_Twine` returns.
use snippets_llvm.Base.{ℕ, Bool, true, Text, codes, ◌≡◌, ◌↔◌, refl, arith, Bool-cases, inl, inr}
use snippets_llvm.Outcome.{ok, Outcome-cases}
use snippets_llvm.Errs.{Run, ◌>>◌}
use snippets_llvm.Errs.Ends.{then_returns}
use snippets_llvm.Misc.Twines.{
  Twines, dump_with_new_line, test_twine, chars_and_temporary, temporary_and_chars,
}

module _ (twines : Twines) where
  open twines use {Twine, concat, print_repr, is_single_string_ref, get_single_string_ref}

  -- What a twine points to is still there: printing it yields a text, and so does reading it as one
  -- text, if it can be read so.
  pub record IsReadable (t : Twine) : Type 0 where
    pub repr : Text
    pub repr_eq : print_repr t ≡ ok repr
    pub single : is_single_string_ref t ≡ true → (s : Text) × (get_single_string_ref t ≡ ok s)

  -- The documentation: a twine may be read while the objects live that it was made of. Of twines of
  -- temporaries nothing is said.
  pub record IsTwine : Type 0 where
    pub empty-IsReadable : IsReadable twines.empty
    pub of_string_ref-IsReadable : (s : Text) → IsReadable (twines.of_string_ref s)
    pub of_string-IsReadable : (s : Text) → IsReadable (twines.of_string s)
    pub of_char-IsReadable : (c : ℕ) → IsReadable (twines.of_char c)
    pub of_unsigned-IsReadable : (n : ℕ) → IsReadable (twines.of_unsigned n)
    pub of_small_vector-IsReadable : (s : Text) → IsReadable (twines.of_small_vector s)
    pub concat-IsReadable :
        (t u : Twine) → IsReadable t → IsReadable u → IsReadable (twines.concat t u)

  IsReadable-of_end :
      (name : Text) (t : Twine) → (dump_with_new_line twines name t).end ≡ ok tt → IsReadable t
  unfolding dump_with_new_line
  IsReadable-of_end name t h = elim (Outcome-cases (print_repr t)) [
    | inl (r, e) ↦ record {
      repr = r;
      repr_eq = e;
      single = λ one. elim (Outcome-cases (get_single_string_ref t)) [
        | inl text ↦ text
        | inr (x, g) ↦ absurd (ground (arith, h, e, one, g))
      ];
    }
    | inr (x, e) ↦ absurd (ground (arith, h, e))
  ]

  end_of_readable :
      (name : Text) (t : Twine) → IsReadable t → (dump_with_new_line twines name t).end ≡ ok tt
  unfolding dump_with_new_line
  end_of_readable name t r = elim (Bool-cases (is_single_string_ref t)) [
    | inl one ↦ rw (r.repr_eq, one, (r.single one).1) refl
    | inr more ↦ rw (r.repr_eq, more) refl
  ]

  -- The dumps of the last three twines.
  abbrev last_dumps : Run (Unit {0})
  last_dumps = do
    dump_with_new_line twines (codes "t__csr") (chars_and_temporary twines)
    dump_with_new_line twines (codes "t__src") (temporary_and_chars twines)
    dump_with_new_line twines (codes "t_st") (twines.of_small_vector (codes "hi!"))

  last_dumps_end :
      IsTwine
      → (last_dumps.end ≡ ok tt)
        ↔ (IsReadable (chars_and_temporary twines) × IsReadable (temporary_and_chars twines))
  last_dumps_end laws =
      let st = laws.of_small_vector-IsReadable (codes "hi!") in
      (
        λ h.
            let (first, rest) =
              (then_returns
                  (dump_with_new_line twines (codes "t__csr") (chars_and_temporary twines)) _).0
                h in
            let (second, _) =
              (then_returns
                  (dump_with_new_line twines (codes "t__src") (temporary_and_chars twines)) _).0
                rest in
            (IsReadable-of_end _ _ first, IsReadable-of_end _ _ second),
        λ r.
            rw
              (
                end_of_readable (codes "t__csr") _ r.0,
                end_of_readable (codes "t__src") _ r.1,
                end_of_readable (codes "t_st") _ st,
              )
              refl,
      )

  -- Where twines of objects that live can be read, `test_Twine` returns exactly if the two twines
  -- can be read that are made of temporaries, whose statements have ended by then.
  pub test_twine_returns :
      (pretty_function : Text) (verbose : Bool)
      → IsTwine
      → ((test_twine twines pretty_function verbose).end ≡ ok tt)
        ↔ (IsReadable (chars_and_temporary twines) × IsReadable (temporary_and_chars twines))
  unfolding test_twine
  test_twine_returns pretty_function verbose laws =
      let sr = laws.of_string_ref-IsReadable (codes "hello world") in
      let c = laws.of_char-IsReadable b'c' in
      let s = laws.of_string-IsReadable (codes "s") in
      let src = laws.concat-IsReadable _ _ sr c in
      rw
        (
          end_of_readable (codes "t_e") _ laws.empty-IsReadable,
          end_of_readable (codes "t_sr") _ sr,
          end_of_readable (codes "t_s") _ s,
          end_of_readable (codes "t_c") _ c,
          end_of_readable (codes "t_ii") _ (laws.of_unsigned-IsReadable 12345),
          end_of_readable (codes "t_src") _ src,
          end_of_readable (codes "t_srcs") _ (laws.concat-IsReadable _ _ src s),
        )
        (last_dumps_end laws)
