-- ===== src/DumpTool/Tests.antt =====
-- The dump tool on the sample module.
use snippets_llvm.Base.{
  Text, List, ◌++◌, ◌⊎◌, ◌∷◌, some, All, true, false, [], ◌≡◌, ◌↔◌, refl, codes,
}
use snippets_llvm.Outcome.{ok, fault, Fault}
use snippets_llvm.Llvm.Sample.{
  Node, Node-discrete, void_t, sample_ir, sample_isa, exit_bb, main_fn, gv, malloc_fn, assert_fn,
  entry_bb, expr, inner, type_of,
}
use snippets_llvm.Llvm.Sample.Laws.{sample_tree}
use snippets_llvm.Llvm.Laws.{HasOpcodes}
use snippets_llvm.Llvm.Classes.{function, instruction}
use snippets_llvm.DumpTool.Module.{
  FunctionReader, dump_main, run_on_module, run_on_funcs, run_on_func, dump_fn_ty, dump_params,
  dump_blocks,
}
use snippets_llvm.Dump.Names.{get_type_str, type_case}
use snippets_llvm.Dump.Linkage.{dump_gv_info, dump_linkage_type, dump_keys, dump_lty_info}
use snippets_llvm.Dump.Printing.{pp_name}
use snippets_llvm.DumpTool.Module.Returns.{IsFunctionTree, is_given_dumped, dump_main_returns}
use snippets_llvm.DumpTool.{
  Reader, dump_basic_block, dump_insts, dump_inst, dump_call_inst, dump_alloca,
}
use snippets_llvm.Errs.Colors.{colored, shown}
use snippets_llvm.DumpTool.Titles.{module_titles, dump_main-colored, dump_main-titles}

abbrev reader : Reader sample_ir
reader = record {
  isa_more = λ c v. false;
  allocated_type = type_of;
  size_in_bits = λ t. 64;
  decimal = λ n. codes "64";
  preds = λ b. [];
  index_text = λ phi b. codes "-1";
  num_incoming = λ phi. 0;
  asm_string = λ v. [];
  constraint_string = λ v. [];
  is_align_stack = λ v. false;
  is_att = λ v. true;
  type_address = λ v. [];
  escaped = λ t. t;
}

sample_opcodes : HasOpcodes sample_ir
unfolding sample_isa
sample_opcodes gv h = absurd (cc)
sample_opcodes malloc_fn h = absurd (cc)
sample_opcodes assert_fn h = absurd (cc)
sample_opcodes main_fn h = absurd (cc)
sample_opcodes entry_bb h = absurd (cc)
sample_opcodes exit_bb h = absurd (cc)
sample_opcodes expr h = absurd (cc)
sample_opcodes inner h = absurd (cc)
sample_opcodes _ h = (0, refl)

abbrev functions : FunctionReader sample_ir
functions = record {
  LinkageType = Unit;
  is_key = λ k l. false;
  linkage = λ v. tt;
  is_materializable = λ v. false;
  return_type = λ t. void_t;
  params = λ t. [];
  parse_ir_file = λ file. some (malloc_fn ∷ main_fn ∷ []);
  diagnostic = λ program file. [];
}

sample_owners : IsFunctionTree sample_ir
unfolding sample_isa Node-discrete
sample_owners = record { function_type_id = λ f h. refl; blocks_in = blocks_in }
  where
    blocks_in :
        (f : Node)
        → sample_isa function f ≡ true
        → All
            (λ b.
              (sample_ir.parent b ≡ some f)
              × All (λ i. sample_isa instruction i ≡ true) (sample_ir.insts b))
            (sample_ir.blocks f)
    blocks_in main_fn h = (
      (refl, (refl, (refl, (refl, (refl, (refl, (refl, (refl, tt)))))))),
      ((refl, (refl, (refl, (refl, tt)))), tt),
    )
    blocks_in _ h = tt

-- `main` has an indirect call.
dump_main_returns_example :
    ((dump_main sample_ir reader functions (codes "dump") (codes "a.ll" ∷ [])).end ≡ ok 0)
    ↔ (is_given_dumped sample_ir reader functions (codes "a.ll" ∷ []) ≡ true)
unfolding sample_isa
dump_main_returns_example =
    dump_main_returns sample_ir reader functions sample_tree sample_opcodes sample_owners
      (λ file. (refl, (refl, tt))) (codes "dump") (codes "a.ll" ∷ [])

-- `main` of the sample has an indirect call, at which the tool stops.
dump_main-colored_example :
    colored false (dump_main sample_ir reader functions (codes "dump") (codes "a.ll" ∷ [])).out
    ≡ some false
unfolding sample_isa
dump_main-colored_example =
    dump_main-colored sample_ir reader functions (codes "dump") (codes "a.ll" ∷ []) sample_owners
      (λ file. (refl, (refl, tt)))

-- The titles up to the one of the block in which the tool stops.
titles_shown :
    shown false (dump_main sample_ir reader functions (codes "dump") (codes "a.ll" ∷ [])).out
    ≡ codes "\n===> FUNC: malloc\n"
      ∷ codes "\n===> FUNC: main\n"
      ∷ codes "---> BB (in main): entry\n"
      ∷ []
unfolding dump_main run_on_module run_on_funcs run_on_func dump_fn_ty dump_params get_type_str
    type_case dump_gv_info dump_linkage_type dump_keys dump_lty_info dump_blocks dump_basic_block
    dump_insts dump_inst dump_call_inst dump_alloca pp_name sample_isa Node-discrete
titles_shown = refl

dump_main-titles_example :
    (left : List Text) × (module_titles sample_ir (malloc_fn ∷ main_fn ∷ [])
      ≡ shown false (dump_main sample_ir reader functions (codes "dump") (codes "a.ll" ∷ [])).out
        ++ left)
    × ((((dump_main sample_ir reader functions (codes "dump") (codes "a.ll" ∷ [])).end ≡ ok 0)
          × (left ≡ []))
        ⊎ ((e : Fault) × ((dump_main sample_ir reader functions
                (codes "dump")
                (codes "a.ll" ∷ [])).end
              ≡ fault e)))
unfolding sample_isa
dump_main-titles_example =
    dump_main-titles sample_ir reader functions (codes "dump") (codes "a.ll") []
      (malloc_fn ∷ main_fn ∷ []) sample_owners (λ file. (refl, (refl, tt))) refl
