-- ===== src/Dump/Printing.antt =====
-- lib/mybase/LLDump.cc, `prettyPrint` to `dumpPassKind`, and include/LLDump.hh, `ppName` and
-- `rbscope_diagnostics`.
pub mod Balanced
use snippets_llvm.Base.{
  ℕ, zero, suc, ◌+◌, ◌%◌, ◌^◌, Bool, true, false, Option, none, some, List, [], ◌∷◌, ◌++◌, Text,
  codes, if◌then◌else◌,
}
use snippets_llvm.Outcome.{aborted, deref}
use snippets_llvm.Errs.{
  Run, lift, pure, fail, write, with_color, Color, red, green, yellow, magenta, cyan, ◌>>=◌, ◌>>◌,
}
use snippets_llvm.Llvm.{Ir}
use snippets_llvm.Llvm.Ids.{
  PassKind, pt_region, pt_loop, pt_function, pt_call_graph_scc, pt_module, pt_pass_manager,
}
use snippets_llvm.Llvm.Classes.{
  global_variable, global_alias, function, basic_block, instruction, argument,
}

-- `RB_Diagnostics`
pub data Level : Type 0 where
  log warn error fatal : Level

unfoldable pub rbscope_diagnostics : Level → Text → Run (Unit {0})
rbscope_diagnostics log msg = with_color cyan (write (codes "LOG: " ++ (msg ++ codes "\n")))
rbscope_diagnostics warn msg = with_color yellow (write (codes "WARN: " ++ (msg ++ codes "\n")))
rbscope_diagnostics error msg = do
  with_color magenta (write (codes "ERROR: " ++ (msg ++ codes "\n")))
  fail aborted
rbscope_diagnostics fatal msg = do
  with_color red (write (codes "FATAL: " ++ (msg ++ codes "\n")))
  fail aborted

unfoldable pub pp_name : Text → Text
pp_name [] = codes "<NONE>"
pp_name (c ∷ name) = c ∷ name

-- `unsigned`
abbrev pub unsigned_mod : ℕ
unsigned_mod = 2 ^ 32

-- `while (n--) errs() << "\n";`
unfoldable pub newlines : ℕ → Run (Unit {0})
newlines zero = pure tt
newlines (suc n) = do write (codes "\n"); newlines n

abbrev kind_str : PassKind → Text
kind_str pt_region = codes "region"
kind_str pt_loop = codes "loop"
kind_str pt_function = codes "func"
kind_str pt_call_graph_scc = codes "cgscc"
kind_str pt_module = codes "module"
kind_str pt_pass_manager = codes "pm"

unfoldable pub dump_pass_kind : PassKind → Run (Unit {0})
dump_pass_kind kind = write (codes "passKind: " ++ (kind_str kind ++ codes "\n"))

module _ (ir : Ir) where
  open ir use {Value, isa, name, print_value, parent}

  abbrev tagged : Text → Text → Run (Unit {0})
  tagged tag shown = write (tag ++ (shown ++ codes " "))

  -- The name of the function that holds an instruction: null on the way is a fault.
  unfoldable pub write_owner : Option Value → Run (Unit {0})
  write_owner owner = do f ← lift (deref owner); write (codes " (" ++ (name f ++ codes ")\n"))

  unfoldable pub pretty_instruction : Value → Run (Unit {0})
  pretty_instruction v = do
    with_color red (write (codes "[Inst]" ++ print_value v))
    with_color green (lift (deref (parent v)) >>= λ block. write_owner (parent block))

  unfoldable pub pretty_argument : Value → Run (Unit {0})
  pretty_argument v = do
    with_color yellow (write (codes "[Arg] " ++ print_value v))
    with_color green (write_owner (parent v))

  -- `V->hasName()` and its branches
  unfoldable pub pretty_other : Value → Text → Run (Unit {0})
  pretty_other v [] = with_color red (write (print_value v ++ codes "\n"))
  pretty_other v (c ∷ n) = with_color yellow (write ((c ∷ n) ++ codes " "))

  -- What is printed of the value itself.
  unfoldable pub pretty_body : Value → Run (Unit {0})
  pretty_body v =
      if isa global_variable v
      then with_color red (tagged (codes "[GV]") (name v))
      else if isa global_alias v
      then with_color magenta (tagged (codes "[GA]") (name v))
      else if isa function v
      then with_color green (tagged (codes "[Fn]") (name v))
      else if isa basic_block v
      then with_color yellow (tagged (codes "[BB]") (name v))
      else if isa instruction v
      then pretty_instruction v
      else if isa argument v
      then pretty_argument v
      else pretty_other v (name v)

  -- The arguments are `unsigned`, and `endLine++` wraps.
  unfoldable pub pretty_print : Option Value → ℕ → ℕ → Run (Unit {0})
  pretty_print none end_line start_line = pure tt
  pretty_print (some v) end_line start_line = do
    newlines start_line
    pretty_body v
    newlines (if isa global_variable v then (end_line + 1) % unsigned_mod else end_line)
