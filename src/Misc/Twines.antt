-- ===== src/Misc/Twines.antt =====
-- tools/misc/Misc.cc, `test_Twine` with its macro `dumpWithNewLine`, and `takeCallBack`.
pub mod Reads
use snippets_llvm.Base.{ℕ, Bool, true, false, List, [], ◌∷◌, ◌++◌, Text, codes, if◌then◌else◌}
use snippets_llvm.Outcome.{Outcome}
use snippets_llvm.Errs.{Run, lift, write, ◌>>=◌, ◌>>◌}
use snippets_llvm.Streams.{decimal}

-- `llvm::Twine`: the constructors that are called, `+`, and the methods that read what a twine
-- points to. Two constructors take a `StringRef` that is a temporary.
pub record Twines : Type 1 where
  pub Twine : Type 0
  pub empty : Twine
  pub of_string_ref : Text → Twine
  pub of_string : Text → Twine
  pub of_char : ℕ → Twine
  pub of_unsigned : ℕ → Twine
  pub of_small_vector : Text → Twine
  pub concat : Twine → Twine → Twine
  pub of_chars_and_temporary : Text → Text → Twine
  pub of_temporary_and_chars : Text → Text → Twine
  pub print_repr : Twine → Outcome Text
  pub is_single_string_ref : Twine → Bool
  pub get_single_string_ref : Twine → Outcome Text

-- `takeCallBack`
unfoldable pub take_call_back {ℓ} : {A : Type ℓ} → (Bool → A) → Bool → A
take_call_back callback verbose = callback verbose

module _ (twines : Twines) where
  open twines use {
    Twine, empty, of_string_ref, of_string, of_char, of_unsigned, of_small_vector, concat,
    of_chars_and_temporary, of_temporary_and_chars, print_repr, is_single_string_ref,
    get_single_string_ref,
  }

  -- `dumpWithNewLine`
  unfoldable pub dump_with_new_line : Text → Twine → Run (Unit {0})
  dump_with_new_line name twine = do
    write (name ++ codes "\t")
    repr ← lift (print_repr twine)
    write repr
    if is_single_string_ref twine
        then (do
          single ← lift (get_single_string_ref twine)
          write (codes "\t>>>" ++ (single ++ codes "<<<\n")))
        else write (codes "\tMULTIPLE\n")

  abbrev pub t_sr : Twine
  t_sr = of_string_ref (codes "hello world")

  abbrev pub t_s : Twine
  t_s = of_string (codes "s")

  abbrev pub t_c : Twine
  t_c = of_char b'c'

  abbrev pub t_src : Twine
  t_src = concat t_sr t_c

  -- `t__csr` and `t__src`
  abbrev pub chars_and_temporary : Twine
  chars_and_temporary = of_chars_and_temporary (codes "HW") (codes "!")

  abbrev pub temporary_and_chars : Twine
  temporary_and_chars = of_temporary_and_chars (codes "HI") (codes "?")

  -- `__PRETTY_FUNCTION__` is the compiler's. A `bool` is printed as an `int`.
  unfoldable pub test_twine : Text → Bool → Run (Unit {0})
  test_twine pretty_function verbose = do
    write (
        codes "\n\n==="
        ++ (pretty_function ++ (codes "(" ++ (decimal (if verbose then 1 else 0) ++ codes ")\n"))))
    dump_with_new_line (codes "t_e") empty
    dump_with_new_line (codes "t_sr") t_sr
    dump_with_new_line (codes "t_s") t_s
    dump_with_new_line (codes "t_c") t_c
    dump_with_new_line (codes "t_ii") (of_unsigned 12345)
    dump_with_new_line (codes "t_src") t_src
    dump_with_new_line (codes "t_srcs") (concat t_src t_s)
    dump_with_new_line (codes "t__csr") chars_and_temporary
    dump_with_new_line (codes "t__src") temporary_and_chars
    dump_with_new_line (codes "t_st") (of_small_vector (codes "hi!"))
