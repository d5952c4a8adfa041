-- ===== src/CountLi/Tests.antt =====
-- The pass on the sample module, with a loop around the second block of `main`.
use snippets_llvm.Base.{Bool, false, Option, none, some, [], ◌∷◌, ◌≡◌, refl, codes, flat_map}
use snippets_llvm.Outcome.{ok}
use snippets_llvm.Errs.{Run, text}
use snippets_llvm.Llvm.Sample.{Node, Node-discrete, main_fn, entry_bb, exit_bb, sample_ir}
use snippets_llvm.CountLi.{LoopInfo, run_on_function, print_blocks}
use snippets_llvm.CountLi.Report.{block_lines, run_on_function-lists}

abbrev loop_of : Node → Option Node
loop_of exit_bb = some exit_bb
loop_of _ = none

abbrev sample_info : LoopInfo sample_ir
sample_info = record {
  Loop = Node;
  empty = λ f. false;
  loop_for = λ f b. loop_of b;
  preheader = λ li. some entry_bb;
}

abbrev sample_lines : Run Bool
sample_lines = record {
  out =
      text (codes "\nFunc: main\n")
      ∷ flat_map (block_lines sample_ir sample_info main_fn) (sample_ir.blocks main_fn);
  end = ok false;
}

printed : run_on_function sample_ir sample_info main_fn ≡ record {
  out =
      text (codes "\nFunc: main\n")
      ∷ text (codes "BB: entry\n")
      ∷ text (codes "BB: \n")
      ∷ text (codes "\tpred:entry\n")
      ∷ text (codes "\tpreheader:entry\n")
      ∷ [];
  end = ok false;
}
unfolding run_on_function print_blocks Node-discrete
printed = refl

run_on_function-lists_example : run_on_function sample_ir sample_info main_fn ≡ sample_lines
unfolding Node-discrete
run_on_function-lists_example = run_on_function-lists sample_ir sample_info main_fn refl
