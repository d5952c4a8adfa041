-- ===== src/PosixMain/Replaces.antt =====
-- The pass on modules whose `main` has no parameters, and a second run of it.
use snippets_llvm.Base.{◌≡◌, refl, arith, true, false, some, List, [], ◌∷◌, ◌++◌, Text, codes}
use snippets_llvm.Outcome.{ok}
use snippets_llvm.Errs.{Chunk, text}
use snippets_llvm.Dump.Printing.{dump_pass_kind}
use snippets_llvm.Llvm.{Ir, element_type, cast_pointer}
use snippets_llvm.Utils.Pointers.{get_pointed_type}
use snippets_llvm.PosixMain.{MainEditor, check_params, posixize, posixize_main, posix_main_pass}
use snippets_llvm.PosixMain.Laws.{IsNamed, IsMainEditor, IsMainType}
use snippets_llvm.PosixMain.Moves.{Replaced, erased, replace_main-end, erased-Replaced}

module _ (ir : Ir) (ed : MainEditor ir) (laws : IsMainEditor ir ed) where
  open ed use {Module, Fn, params, get_function, int_ty, argv_ty}

  check_params-main : IsMainType ir ed → (check_params ir ed (int_ty ∷ argv_ty ∷ [])).end ≡ ok tt
  unfolding check_params get_pointed_type element_type cast_pointer
  check_params-main t = ground arith

  posixize_main-done :
      (n : Module) (f : Fn)
      → IsMainType ir ed
      → get_function n (codes "main") ≡ some f
      → params n f ≡ int_ty ∷ argv_ty ∷ []
      → (posixize_main ir ed n).end ≡ ok (false, n)
  unfolding posixize_main posixize
  posixize_main-done n f t e p = ground (arith, check_params-main t)

  -- What the pass writes first: its kind, and its name and id.
  abbrev pub pass_lines : Text → Text → List Chunk
  pass_lines pass_name pass_id =
      text (codes "passKind: module\n")
      ∷ text (pass_name ++ (codes " ID:" ++ (pass_id ++ codes "\n")))
      ∷ []

  -- If the names of a module's functions differ, its `main` has no parameters and is used nowhere,
  -- and nothing in it is called `old_main`, the pass writes its kind, its name and its id only, and
  -- puts a new function `main` in place of the old one: with the type `int(int, char **)`, and the
  -- linkage, the attributes and the blocks of the old one. All other functions stay as they are, and
  -- a second run of the pass changes nothing.
  pub posix_main_pass_replaces :
      IsMainType ir ed
      → (pass_name pass_id : Text) (m : Module) (main : Fn) → IsNamed ir ed m
      → get_function m (codes "main") ≡ some main
      → laws.has_name m (codes "old_main") ≡ false
      → laws.is_used m main ≡ false
      → params m main ≡ []
      → (n : Module) × (posix_main_pass ir ed pass_name pass_id m
          ≡ record { out = pass_lines pass_name pass_id; end = ok (true, n) })
        × Replaced ir ed laws m main n
        × ((posix_main_pass ir ed pass_name pass_id n).end ≡ ok (false, n))
  unfolding posix_main_pass dump_pass_kind posixize_main posixize
  posix_main_pass_replaces t pass_name pass_id m main named is_main free unused none_yet =
      let replaced = erased-Replaced ir ed laws m main is_main named free in
      (
        erased ir ed laws m main is_main,
        rw (is_main, none_yet, replace_main-end ir ed laws m main is_main, unused) refl,
        replaced,
        posixize_main-done (erased ir ed laws m main is_main) replaced.new t replaced.is_main
            replaced.params_eq,
      )
