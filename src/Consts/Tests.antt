-- ===== src/Consts/Tests.antt =====
-- The pass on the sample module.
use snippets_llvm.Base.{◌≡◌, refl, none, [], ◌∷◌, codes}
use snippets_llvm.Outcome.{ok}
use snippets_llvm.Llvm.Sample.{Node-discrete, main_fn, sample_ir, sample_isa}
use snippets_llvm.Consts.{ConstReader}
use snippets_llvm.Consts.Stops.{operands_end, module_operands}

abbrev sample_reader : ConstReader sample_ir
sample_reader = record {
  int_text = λ v. codes "1";
  float_text = λ v. codes "1.0";
  value_name = λ v. none;
  pointer_text = λ p. codes "0x0";
  num_operands = λ v. 0;
  alignment_text = λ v. codes "8";
}

-- `ret` has a constant expression as its operand.
main_is_printed :
    operands_end sample_ir sample_reader (module_operands sample_ir sample_reader (main_fn ∷ []))
    ≡ ok tt
unfolding Node-discrete sample_isa
main_is_printed = refl
