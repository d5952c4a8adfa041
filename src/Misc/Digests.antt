-- ===== src/Misc/Digests.antt =====
-- tools/misc/Misc.cc, `test_md5`.
use snippets_llvm.Base.{Text, codes, ◌++◌, ◌≡◌, refl}
use snippets_llvm.Outcome.{ok}
use snippets_llvm.Errs.{Run, write, ◌>>◌}

-- `llvm::ErrorOr<A>`
pub data ErrorOr (Error A : Type 0) : Type 0 where
  error : Error → ErrorOr Error A
  value : A → ErrorOr Error A

-- `MemoryBuffer::getFile` with `getBuffer`, `std::error_code::message`, and `llvm::MD5` with its
-- result's `digest`.
pub record Files : Type 1 where
  pub ErrorCode : Type 0
  pub message : ErrorCode → Text
  pub get_file : Text → ErrorOr ErrorCode Text
  pub Md5 : Type 0
  pub Md5Result : Type 0
  pub fresh : Md5
  pub update : Text → Md5 → Md5
  pub final : Md5 → Md5Result
  pub digest : Md5Result → Text

module _ (files : Files) where
  open files use {ErrorCode, message, get_file, fresh, update, final, digest}

  unfoldable pub write_digest : Text → ErrorOr ErrorCode Text → Run (Unit {0})
  write_digest fname (error e) = write (message e ++ codes "\n")
  write_digest fname (value s) =
      let md5 = update s fresh in
      write (fname ++ (codes " MD5: " ++ (digest (final md5) ++ codes "\n")))

  -- `__PRETTY_FUNCTION__` is the compiler's.
  unfoldable pub test_md5 : Text → Run (Unit {0})
  test_md5 pretty_function = do
    write (codes "\n\n===" ++ (pretty_function ++ codes "\n"))
    write_digest (codes "/bin/ls") (get_file (codes "/bin/ls"))

  write_digest_returns :
      (fname : Text) (res : ErrorOr ErrorCode Text) → (write_digest fname res).end ≡ ok tt
  unfolding write_digest
  write_digest_returns fname (error e) = refl
  write_digest_returns fname (value s) = refl

  -- Whether the file can be read or not, `test_md5` returns.
  pub test_md5_returns : (pretty_function : Text) → (test_md5 pretty_function).end ≡ ok tt
  unfolding test_md5
  test_md5_returns pretty_function = write_digest_returns _ _
