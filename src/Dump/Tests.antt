-- ===== src/Dump/Tests.antt =====
-- The printers of LLDump.cc on the sample module.
use snippets_llvm.Base.{List, false, some, ◌∷◌, ◌++◌, ◌≡◌, refl, arith, codes, if◌then◌else◌}
use snippets_llvm.Outcome.{ok, fault, aborted}
use snippets_llvm.Llvm.Classes.{binary_operator, call_inst}
use snippets_llvm.Llvm.Sample.{sample_ir, sample_isa, va, load_p, main_fn, malloc_fn}
use snippets_llvm.Llvm.Sample.Laws.{sample_tree}
use snippets_llvm.Dump.Names.{get_value_str, value_case}
use snippets_llvm.Dump.Names.RoundTrip.{get_value_str-separates}
use snippets_llvm.Dump.InstType.{inst_type_str, find, substr, is_prefix}
use snippets_llvm.Dump.InstType.Extract.{inst_type_str-isa}
use snippets_llvm.Dump.InstKind.{print_inst_kind}
use snippets_llvm.Dump.InstKind.Ends.{is_one_of, ending, print_inst_kind_ends}
use snippets_llvm.Dump.InstKind.Labels.{Kinds, print_inst_kind-Kinds}
use snippets_llvm.Dump.Printing.{
  pretty_print, pretty_body, write_owner, newlines, pretty_instruction,
}
use snippets_llvm.Errs.{Chunk, text}
use snippets_llvm.Errs.Colors.{colored}
use snippets_llvm.Dump.Printing.Balanced.{pretty_print-colored}

get_value_str-separates_example : sample_ir.value_id malloc_fn ≡ sample_ir.value_id main_fn
unfolding get_value_str value_case
get_value_str-separates_example =
    get_value_str-separates sample_ir malloc_fn main_fn (codes "Value::FunctionVal") refl refl

inst_type_str-isa_example : inst_type_str (codes "isa<LoadInst>(I)") ≡ ok (codes "LoadInst")
inst_type_str-isa_example =
    inst_type_str-isa (codes "LoadInst") (codes "(I)") (omega arith) (omega arith)

print_inst_kind_ends_example : (print_inst_kind sample_ir va).end ≡ (
    if is_one_of sample_ir (binary_operator ∷ call_inst ∷ ending sample_ir) va
    then ok tt
    else fault aborted)
print_inst_kind_ends_example = print_inst_kind_ends sample_ir sample_tree va

print_inst_kind-Kinds_example :
    (kinds : List Chunk) × Kinds sample_ir va kinds
    × ((print_inst_kind sample_ir va).out
        ≡ text (codes "\n" ++ (sample_ir.print_value va ++ codes "\n")) ∷ kinds)
print_inst_kind-Kinds_example = print_inst_kind-Kinds sample_ir va

-- An instruction of the function `main`
pretty_print-colored_example :
    colored false (pretty_print sample_ir (some load_p) 1 1).out ≡ some false
unfolding pretty_print pretty_body pretty_instruction write_owner sample_isa newlines
pretty_print-colored_example = pretty_print-colored sample_ir (some load_p) 1 1 refl

-- The text that the macro makes of a test is more than the class's name.
phi_node_text : inst_type_str (codes "isa<PHINode>(I)") ≡ ok (codes "PHINode")
unfolding inst_type_str find substr is_prefix
phi_node_text = refl
