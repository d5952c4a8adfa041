-- ===== src/Misc/StringRefs.antt =====
-- tools/misc/Misc.cc, `test_StringRef`.
pub mod Splits
use snippets_llvm.Base.{ℕ, List, [], ◌∷◌, ◌++◌, Text, codes}
use snippets_llvm.Errs.{Run, write, ◌>>◌}
use snippets_llvm.Streams.{decimal}

-- `StringRef::split` at a character and at a text, and `hash_value`.
pub record StringRefs : Type 0 where
  pub split_char : Text → ℕ → Text × Text
  pub split : Text → Text → Text × Text
  pub hash_value : Text → ℕ

module _ (refs : StringRefs) where
  open refs use {split_char, split, hash_value}

  -- The two parts with a tabulator between them.
  unfoldable pub write_parts : Text × Text → Run (Unit {0})
  write_parts parts = write (parts.0 ++ (codes "\t" ++ (parts.1 ++ codes "\n")))

  -- `__PRETTY_FUNCTION__` is the compiler's.
  unfoldable pub test_string_ref : Text → Run (Unit {0})
  test_string_ref pretty_function =
      let ref = codes "hello" in
      do
        write (codes "\n\n===" ++ (pretty_function ++ codes "\n"))
        write (ref ++ codes "\n")
        write (codes "hash: " ++ (decimal (hash_value ref) ++ codes "\n"))
        write_parts (split_char ref b'l')
        write_parts (split ref (codes "ll"))
