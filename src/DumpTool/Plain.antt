-- ===== src/DumpTool/Plain.antt =====
-- What the dump tool prints without colours: instructions, and the types and linkage of functions.
use snippets_llvm.Base.{ℕ, ◌+◌, ◌%◌, ◌^◌, Bool, List, [], ◌∷◌, refl}
use snippets_llvm.Errs.Colors.{
  IsPlain, plain_code, text-IsPlain, lift_then-IsPlain, then_run-IsPlain,
}
use snippets_llvm.Llvm.{Ir}
use snippets_llvm.Dump.Linkage.{dump_gv_info, dump_linkage_type, dump_keys, dump_lty_info, Key}
use snippets_llvm.DumpTool.{
  Reader, dump_inline_asm, dump_call_inst, dump_preds, dump_phi_node, dump_indices, dump_gep,
  dump_alloca, dump_inst, dump_insts,
}
use snippets_llvm.DumpTool.Module.{FunctionReader, dump_params, dump_fn_ty}

module _ (ir : Ir) (reader : Reader ir) where
  open ir use {Value}

  dump_inline_asm-IsPlain : (ia : Value) → IsPlain (dump_inline_asm ir reader ia)
  unfolding dump_inline_asm
  dump_inline_asm-IsPlain ia = record { plain = refl }

  dump_call_inst-IsPlain : (i : Value) → IsPlain (dump_call_inst ir reader i)
  unfolding dump_call_inst
  dump_call_inst-IsPlain i = search (plain_code, dump_inline_asm-IsPlain)

  dump_preds-IsPlain : (phi : Value) (bs : List Value) → IsPlain (dump_preds ir reader phi bs)
  unfolding dump_preds
  dump_preds-IsPlain phi [] = search plain_code
  dump_preds-IsPlain phi (b ∷ bs) = search (plain_code, dump_preds-IsPlain phi bs)

  dump_phi_node-IsPlain : (phi : Value) → IsPlain (dump_phi_node ir reader phi)
  unfolding dump_phi_node
  dump_phi_node-IsPlain phi = search (plain_code, dump_preds-IsPlain)

  dump_indices-IsPlain : (vs : List Value) → IsPlain (dump_indices ir reader vs)
  unfolding dump_indices
  dump_indices-IsPlain [] = search plain_code
  dump_indices-IsPlain (v ∷ vs) = search (plain_code, dump_indices-IsPlain vs)

  dump_gep-IsPlain : (gep : Value) → IsPlain (dump_gep ir reader gep)
  unfolding dump_gep
  dump_gep-IsPlain gep = search (plain_code, dump_indices-IsPlain) depth 8

  dump_alloca-IsPlain : (i : Value) → IsPlain (dump_alloca ir reader i)
  unfolding dump_alloca
  dump_alloca-IsPlain i = search plain_code

  dump_inst-IsPlain : (i : Value) → IsPlain (dump_inst ir reader i)
  unfolding dump_inst
  dump_inst-IsPlain i =
      search
        (
          plain_code, dump_alloca-IsPlain, dump_gep-IsPlain, dump_phi_node-IsPlain,
          dump_call_inst-IsPlain,
        )
        depth 8

  pub dump_insts-IsPlain : (is : List Value) → IsPlain (dump_insts ir reader is)
  unfolding dump_insts
  dump_insts-IsPlain [] = search plain_code
  dump_insts-IsPlain (i ∷ is) =
      then_run-IsPlain _ _ (dump_inst-IsPlain i) λ _. dump_insts-IsPlain is

module _ (ir : Ir) (reader : Reader ir) (functions : FunctionReader ir) where
  open ir use {Value, Ty}
  open functions use {LinkageType, is_key}

  dump_params-IsPlain : (i : ℕ) (ts : List Ty) → IsPlain (dump_params ir reader functions i ts)
  unfolding dump_params
  dump_params-IsPlain i [] = search plain_code
  dump_params-IsPlain i (t ∷ ts) =
      text-IsPlain _ _ (lift_then-IsPlain _ _ λ shown. dump_params-IsPlain ((i + 1) % 2 ^ 32) ts)

  pub dump_fn_ty-IsPlain : (f : Value) → IsPlain (dump_fn_ty ir reader functions f)
  unfolding dump_fn_ty
  dump_fn_ty-IsPlain f = search (plain_code, dump_params-IsPlain) depth 8

  dump_keys-IsPlain :
      (keys : List Key) (lty : LinkageType) → IsPlain (dump_keys LinkageType is_key keys lty)
  unfolding dump_keys dump_lty_info
  dump_keys-IsPlain [] lty = search plain_code
  dump_keys-IsPlain (key ∷ keys) lty = search (plain_code, dump_keys-IsPlain keys lty)

  pub dump_gv_info-IsPlain :
      (materializable : Bool) (lty : LinkageType)
      → IsPlain (dump_gv_info LinkageType is_key materializable lty)
  unfolding dump_gv_info dump_linkage_type
  dump_gv_info-IsPlain materializable lty = search (plain_code, dump_keys-IsPlain)
