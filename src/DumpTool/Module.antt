-- ===== src/DumpTool/Module.antt =====
-- tools/dump/Dump.cc: what the tool prints of a function and of a module, and its `main`.
pub mod Returns
use snippets_llvm.Base.{
  ℕ, ◌+◌, ◌%◌, ◌^◌, Bool, true, false, Option, none, some, List, [], ◌∷◌, ◌++◌, Text, codes, length,
}
use snippets_llvm.Outcome.{exited}
use snippets_llvm.Errs.{Run, lift, pure, fail, write, with_color, red, magenta, ◌>>=◌, ◌>>◌}
use snippets_llvm.Llvm.{Ir}
use snippets_llvm.Dump.Names.{get_type_str}
use snippets_llvm.Dump.Linkage.{Key, dump_gv_info}
use snippets_llvm.DumpTool.{Reader, dump_basic_block}

-- What the tool reads of functions and their types, and how it parses a file.
pub record FunctionReader (ir : Ir) : Type 1 where
  -- `getLinkage` with its tests, and `isMaterializable`
  pub LinkageType : Type 0
  pub is_key : Key → LinkageType → Bool
  pub linkage : ir.Value → LinkageType
  pub is_materializable : ir.Value → Bool
  -- FunctionType: `getReturnType`, `params`
  pub return_type : ir.Ty → ir.Ty
  pub params : ir.Ty → List ir.Ty
  -- `parseIRFile`: the functions of the module in a file, or null, with the text that
  -- `SMDiagnostic::print` then writes for a program
  pub parse_ir_file : Text → Option (List ir.Value)
  pub diagnostic : Text → Text → Text

module _ (ir : Ir) (reader : Reader ir) (functions : FunctionReader ir) where
  open ir use {Value, Ty, name, function_type, blocks}
  open reader use {decimal}
  open functions use {
    LinkageType, is_key, linkage, is_materializable, return_type, params, parse_ir_file, diagnostic,
  }

  -- The loop over the parameters; `i` is an `unsigned`.
  unfoldable pub dump_params : ℕ → List Ty → Run (Unit {0})
  dump_params i [] = pure tt
  dump_params i (t ∷ ts) =
      let j = (i + 1) % 2 ^ 32 in
      do
        write (codes " " ++ (decimal j ++ codes ") "))
        shown ← lift (get_type_str ir t)
        dump_params j ts

  unfoldable pub dump_fn_ty : Value → Run (Unit {0})
  dump_fn_ty f =
      let fn_ty = function_type f in
      do
        shown ← lift (get_type_str ir fn_ty)
        write (codes " retType: ")
        returned ← lift (get_type_str ir (return_type fn_ty))
        write (codes "ParameterTypes (" ++ (decimal (length (params fn_ty)) ++ codes "):\n"))
        dump_params 0 (params fn_ty)

  unfoldable pub dump_blocks : List Value → Run (Unit {0})
  dump_blocks [] = pure tt
  dump_blocks (b ∷ bs) = do dump_basic_block ir reader b; dump_blocks bs

  unfoldable pub run_on_func : Value → Run Bool
  run_on_func f = do
    with_color red (write (codes "\n===> FUNC: " ++ (name f ++ codes "\n")))
    dump_fn_ty f
    dump_gv_info LinkageType is_key (is_materializable f) (linkage f)
    dump_blocks (blocks f)
    pure false

  abbrev pub print_global_values : Run (Unit {0})
  print_global_values = do
    with_color red (write (codes "\n===> global variables:"))
    with_color red (write (codes "\n===> global alias:"))
    with_color red (write (codes "\n===> ifuncs:"))

  abbrev pub print_n_metadata : Run (Unit {0})
  print_n_metadata = with_color magenta (write (codes "\n===> NMetadate:"))

  unfoldable pub run_on_funcs : List Value → Run (Unit {0})
  run_on_funcs [] = pure tt
  run_on_funcs (f ∷ fs) = do changed ← run_on_func f; run_on_funcs fs

  -- Of a module by its functions
  unfoldable pub run_on_module : List Value → Run Bool
  run_on_module fs = do run_on_funcs fs; print_global_values; print_n_metadata; pure false

  abbrev pub run_parsed : Text → Text → Option (List Value) → Run ℕ
  run_parsed program file none = do write (diagnostic program file); fail (exited 1)
  run_parsed program file (some fs) = do changed ← run_on_module fs; pure 0

  -- `main` with `argv[0]` and what follows it.
  unfoldable pub dump_main : Text → List Text → Run ℕ
  dump_main program [] = do
    write (codes "Usage: " ++ (program ++ codes " <IR file>\n"))
    fail (exited 1)
  dump_main program (file ∷ rest) = run_parsed program file (parse_ir_file file)
