-- ===== src/DumpTool/Titles.antt =====
-- The titles that the dump tool prints in colours.
use snippets_llvm.Base.{
  ℕ, arith, true, false, Option, none, some, List, [], ◌∷◌, ◌++◌, ◌≡◌, ◌⊎◌, inl, inr, refl, Text,
  codes, All, flat_map, map, ap, sym, ◌∙◌,
}
use snippets_llvm.Outcome.{ok, fault, Fault, deref, Outcome-cases}
use snippets_llvm.Errs.Colors.{colored, shown}
use snippets_llvm.Errs.Titles.{
  Titles, plain-Titles, title-Titles, then_run-Titles, before_plain-Titles,
}
use snippets_llvm.Llvm.{Ir}
use snippets_llvm.Llvm.Classes.{function, instruction}
use snippets_llvm.Dump.Printing.{pp_name}
use snippets_llvm.DumpTool.{Reader, dump_basic_block}
use snippets_llvm.DumpTool.Module.{
  FunctionReader, dump_blocks, run_on_func, run_on_funcs, run_on_module, run_parsed, dump_main,
}
use snippets_llvm.DumpTool.Module.Returns.{IsFunctionTree, HoldsFunctions}
use snippets_llvm.DumpTool.Plain.{dump_insts-IsPlain, dump_fn_ty-IsPlain, dump_gv_info-IsPlain}

module _ (ir : Ir) where
  open ir use {Value, name, blocks}

  -- The title of a block in a function, of a function with those of its blocks, and of a module.
  abbrev pub block_title : Value → Value → Text
  block_title f b =
      codes "---> BB (in " ++ (name f ++ (codes "): " ++ (pp_name (name b) ++ codes "\n")))

  abbrev pub function_titles : Value → List Text
  function_titles f =
      (codes "\n===> FUNC: " ++ (name f ++ codes "\n")) ∷ map (block_title f) (blocks f)

  abbrev pub module_titles : List Value → List Text
  module_titles fs =
      flat_map function_titles fs
      ++ (codes "\n===> global variables:"
          ∷ codes "\n===> global alias:"
          ∷ codes "\n===> ifuncs:"
          ∷ codes "\n===> NMetadate:"
          ∷ [])

  abbrev pub parsed_titles : Option (List Value) → List Text
  parsed_titles none = []
  parsed_titles (some fs) = module_titles fs

module _ (ir : Ir) (reader : Reader ir) (functions : FunctionReader ir) where
  open ir use {Value, isa, blocks, insts, parent, name}
  open functions use {parse_ir_file}

  dump_basic_block-Titles :
      (b f : Value)
      → parent b ≡ some f
      → Titles (block_title ir f b ∷ []) (dump_basic_block ir reader b)
  unfolding dump_basic_block
  dump_basic_block-Titles b f e =
      rw (e, deref) (title-Titles _ _ _ _ (plain-Titles _ (dump_insts-IsPlain ir reader (insts b))))

  dump_blocks-Titles :
      (f : Value) (bs : List Value)
      → All (λ b. (parent b ≡ some f) × All (λ i. isa instruction i ≡ true) (insts b)) bs
      → Titles (map (block_title ir f) bs) (dump_blocks ir reader functions bs)
  unfolding dump_blocks
  dump_blocks-Titles f [] h = plain-Titles _ (record { plain = refl })
  dump_blocks-Titles f (b ∷ bs) h =
      then_run-Titles _ _ _ _ (dump_basic_block-Titles b f h.0.0) λ _. dump_blocks-Titles f bs h.1

  run_on_func-Titles :
      (f : Value)
      → All (λ b. (parent b ≡ some f) × All (λ i. isa instruction i ≡ true) (insts b)) (blocks f)
      → Titles (function_titles ir f) (run_on_func ir reader functions f)
  unfolding run_on_func
  run_on_func-Titles f h = title-Titles _ _ _ _ (
      then_run-Titles [] _ _ _ (plain-Titles _ (dump_fn_ty-IsPlain ir reader functions f)) λ _.
        then_run-Titles [] _ _ _ (plain-Titles _ (dump_gv_info-IsPlain ir reader functions _ _))
          λ _.
            before_plain-Titles _ _ _ (dump_blocks-Titles f (blocks f) h)
              λ _. record { plain = refl })

  run_on_funcs-Titles :
      (fs : List Value)
      → All (λ f. isa function f ≡ true) fs
      → IsFunctionTree ir
      → Titles (flat_map (function_titles ir) fs) (run_on_funcs ir reader functions fs)
  unfolding run_on_funcs
  run_on_funcs-Titles [] h owners = plain-Titles _ (record { plain = refl })
  run_on_funcs-Titles (f ∷ fs) h owners =
      then_run-Titles _ _ _ _ (run_on_func-Titles f (owners.blocks_in f h.0))
        λ _. run_on_funcs-Titles fs h.1 owners

  run_on_module-Titles :
      (fs : List Value)
      → Titles (flat_map (function_titles ir) fs) (run_on_funcs ir reader functions fs)
      → Titles (module_titles ir fs) (run_on_module ir reader functions fs)
  unfolding run_on_module
  run_on_module-Titles fs r = then_run-Titles _ _ _ _ r λ _. title-Titles _ _ _ _ (
      title-Titles _ _ _ _
        (title-Titles _ _ _ _ (title-Titles _ _ _ _ (plain-Titles _ (record { plain = refl })))))

  run_parsed-Titles :
      (program file : Text) (parsed : Option (List Value))
      → HoldsFunctions ir reader functions parsed
      → IsFunctionTree ir
      → Titles (parsed_titles ir parsed) (run_parsed ir reader functions program file parsed)
  run_parsed-Titles program file none h owners = plain-Titles _ (record { plain = refl })
  run_parsed-Titles program file (some fs) h owners =
      before_plain-Titles _ _ _ (run_on_module-Titles fs (run_on_funcs-Titles fs h owners))
        λ _. record { plain = refl }

  -- The only code that the tool returns is 0.
  run_parsed-zero :
      (program file : Text) (parsed : Option (List Value)) (n : ℕ)
      → (run_parsed ir reader functions program file parsed).end ≡ ok n
      → (run_parsed ir reader functions program file parsed).end ≡ ok 0
  run_parsed-zero program file none n h = cc h
  run_parsed-zero program file (some fs) n h = ground (arith, h)

  given_titles : List Text → List Text
  given_titles [] = []
  given_titles (file ∷ rest) = parsed_titles ir (parse_ir_file file)

  dump_main-Titles :
      (program : Text) (args : List Text)
      → IsFunctionTree ir
      → ((file : Text) → HoldsFunctions ir reader functions (parse_ir_file file))
      → Titles (given_titles args) (dump_main ir reader functions program args)
  unfolding dump_main given_titles
  dump_main-Titles program [] owners h = plain-Titles _ (record { plain = refl })
  dump_main-Titles program (file ∷ rest) owners h =
      run_parsed-Titles program file (parse_ir_file file) (h file) owners

  -- Where files that can be parsed hold functions, which have function types and own their blocks,
  -- and blocks hold instructions, no colour is set over another one, none is reset that was not set,
  -- and none is left, however the dump tool ends: with a code, or at a fault.
  pub dump_main-colored :
      (program : Text) (args : List Text)
      → IsFunctionTree ir
      → ((file : Text) → HoldsFunctions ir reader functions (parse_ir_file file))
      → colored false (dump_main ir reader functions program args).out ≡ some false
  dump_main-colored program args owners h = (dump_main-Titles program args owners h).kept

  -- Where files that can be parsed hold functions, which have function types and own their blocks,
  -- and blocks hold instructions, what the dump tool prints in colours of a file that can be parsed
  -- is the title of each function in order, each followed by the titles of its blocks in order, and
  -- then the four titles of the module: all of them if it returns, and the first of them if it stops
  -- at a fault.
  pub dump_main-titles :
      (program file : Text) (rest : List Text) (fs : List Value)
      → IsFunctionTree ir
      → ((file : Text) → HoldsFunctions ir reader functions (parse_ir_file file))
      → parse_ir_file file ≡ some fs
      → (left : List Text) × (module_titles ir fs
          ≡ shown false (dump_main ir reader functions program (file ∷ rest)).out ++ left)
        × ((((dump_main ir reader functions program (file ∷ rest)).end ≡ ok 0) × (left ≡ []))
            ⊎ ((e : Fault) × ((dump_main ir reader functions program (file ∷ rest)).end ≡ fault e)))
  unfolding dump_main given_titles
  dump_main-titles program file rest fs owners h parsed =
      let t = dump_main-Titles program (file ∷ rest) owners h in
      (
        t.left,
        ap (parsed_titles ir) (sym parsed) ∙ t.titles,
        elim (Outcome-cases (dump_main ir reader functions program (file ∷ rest)).end) [
          | inl (n, e) ↦ inl (run_parsed-zero program file (parse_ir_file file) n e, t.all n e)
          | inr (x, e) ↦ inr (x, e)
        ],
      )
