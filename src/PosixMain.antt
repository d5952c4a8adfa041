-- ===== src/PosixMain.antt =====
-- lib/snippets/POSIXMain.cc: the pass posix-main, which gives a `main` without parameters the type
-- `int(int, char **)`.
pub mod Laws
pub mod Moves
pub mod Replaces
pub mod Returns
pub mod Sample
pub mod Tests
use snippets_llvm.Base.{
  ℕ, Bool, true, false, Option, none, some, List, [], ◌∷◌, ◌++◌, Text, codes, length, get_elem?,
  ◌==◌, if◌then◌else◌,
}
use snippets_llvm.Outcome.{Outcome, ok, fault, assertion, check}
use snippets_llvm.Errs.{Run, lift, pure, write, ◌>>=◌, ◌>>◌}
use snippets_llvm.Llvm.{Ir, is_integer_ty, element_type, cast_pointer}
use snippets_llvm.Llvm.Ids.{pt_module}
use snippets_llvm.Dump.Printing.{dump_pass_kind}
use snippets_llvm.Utils.Pointers.{get_pointed_type}

-- What the pass calls of LLVM to read and to change a module.
pub record MainEditor (ir : Ir) : Type 1 where
  pub Module : Type 0
  pub Fn : Type 0
  pub Linkage : Type 0
  pub Attributes : Type 0
  pub Block : Type 0
  -- the functions of a module; of a function its name, the types of its parameters, its linkage, its
  -- attributes and its blocks
  pub functions : Module → List Fn
  pub fn_name : Module → Fn → Text
  pub params : Module → Fn → List ir.Ty
  pub linkage : Module → Fn → Linkage
  pub attributes : Module → Fn → Attributes
  pub blocks : Module → Fn → List Block
  -- `getFunction`, `getModuleIdentifier`, `getBitWidth`
  pub get_function : Module → Text → Option Fn
  pub module_identifier : Module → Text
  pub bit_width : ir.Ty → ℕ
  -- `setName`, and `Function::Create` at a module with the type `int(int, char **)`
  pub set_name : Module → Fn → Text → Module
  pub int_ty : ir.Ty
  pub argv_ty : ir.Ty
  pub create_function : Module → List ir.Ty → Linkage → Text → Module × Fn
  pub set_attributes : Module → Fn → Attributes → Module
  -- `to->getBasicBlockList().splice(to->begin(), from->getBasicBlockList())`
  pub splice : Module → Fn → Fn → Module
  -- `eraseFromParent` fails an assertion for a function that is still used.
  pub erase_from_parent : Module → Fn → Outcome Module

module _ (ir : Ir) (ed : MainEditor ir) where
  open ed use {
    Module, Fn, params, linkage, attributes, get_function, module_identifier, bit_width, set_name,
    int_ty, argv_ty, create_function, set_attributes, splice, erase_from_parent,
  }

  -- `getParamType(i)`, which asserts that there is such a parameter
  abbrev param_type : List ir.Ty → ℕ → Outcome ir.Ty
  param_type ts i = elim (get_elem? ts i) [ none ↦ fault assertion | some t ↦ ok t ]

  -- The assertions on a `main` with two parameters.
  unfoldable pub check_params : List ir.Ty → Run (Unit {0})
  check_params ts = do
    argc ← lift (param_type ts 0)
    lift (check (is_integer_ty ir argc))
    argv ← lift (param_type ts 1)
    argv_p ← lift (get_pointed_type ir argv)
    argv_e ← lift (cast_pointer ir argv_p)
    first ← lift (element_type ir argv_e)
    lift (check (is_integer_ty ir first))
    second ← lift (element_type ir argv_e)
    lift (check (is_integer_ty ir second))
    lift (check (bit_width second == 8))

  -- The new `main`, which takes over what the old one has.
  unfoldable pub replace_main : Module → Fn → Outcome Module
  replace_main m main =
      let m1 = set_name m main (codes "old_main") in
      let (m2, new_main) =
        create_function m1 (int_ty ∷ argv_ty ∷ []) (linkage m1 main) (codes "main") in
      let m3 = set_attributes m2 new_main (attributes m2 main) in
      let m4 = splice m3 new_main main in erase_from_parent m4 main

  unfoldable pub posixize : Module → Option Fn → Run (Bool × Module)
  posixize m none = do
    write (codes "no main function in " ++ (module_identifier m ++ codes "\n"))
    pure (false, m)
  posixize m (some main) =
      if length (params m main) == 2
      then (do
        write (codes "arg_size == 2, nothing to do\n")
        check_params (params m main)
        pure (false, m))
      else (do
        lift (check (length (params m main) == 0))
        m' ← lift (replace_main m main)
        pure (true, m'))

  unfoldable pub posixize_main : Module → Run (Bool × Module)
  posixize_main m = posixize m (get_function m (codes "main"))

  -- The name and the id of the pass are LLVM's.
  unfoldable pub posix_main_pass : Text → Text → Module → Run (Bool × Module)
  posix_main_pass pass_name pass_id m = do
    dump_pass_kind pt_module
    write (pass_name ++ (codes " ID:" ++ (pass_id ++ codes "\n")))
    posixize_main m
