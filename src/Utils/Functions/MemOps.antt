-- ===== src/Utils/Functions/MemOps.antt =====
-- Which functions `isFn_mem_ops` accepts.
use snippets_llvm.Base.{
  Bool, true, ◌&&◌, Text, some, ◌≡◌, ◌↔◌, ◌⊎◌, refl, arith, codes, text_eq, text_eq_iff,
}
use snippets_llvm.Llvm.{Ir}
use snippets_llvm.Llvm.Ids.{IntrinsicId, memcpy, memmove, memset}
use snippets_llvm.Utils.Functions.{
  has_name, is_memcpy_id, is_memmove_id, is_memset_id, is_fn_malloc, is_fn_free, is_fn_memcpy,
  is_fn_memmove, is_fn_memset, is_fn_mem_ops,
}

-- One of the intrinsics that copy or set memory.
abbrev pub IsMemId : IntrinsicId → Type 0
IsMemId k = (k ≡ memcpy) ⊎ ((k ≡ memmove) ⊎ (k ≡ memset))

IsMemId-iff :
    (k : IntrinsicId)
    → ((is_memcpy_id k ≡ true) ⊎ ((is_memmove_id k ≡ true) ⊎ (is_memset_id k ≡ true))) ↔ IsMemId k
IsMemId-iff memcpy = ground arith
IsMemId-iff _ = ground arith

-- The test of a name: `hasName` adds nothing to the comparison with a text that is not empty.
is_named_iff :
    (d : Bool) (n t : Text)
    → has_name t ≡ true
    → (d && (has_name n && text_eq n t) ≡ true) ↔ ((d ≡ true) × (n ≡ t))
is_named_iff d n t h =
    (λ e. ground (arith, text_eq_iff n t), λ e. rw (e.0, e.1, h) ((text_eq_iff t t).1 refl))

module _ (ir : Ir) where
  open ir use {Value, name, is_declaration, intrinsic_id}

  -- A function counts as a memory operation exactly if it is a declaration named `malloc` or `free`,
  -- or one of the three intrinsics, declared or not.
  pub is_fn_mem_ops_iff :
      (f : Value)
      → (is_fn_mem_ops ir (some f) ≡ true) ↔ (
          (is_declaration f ≡ true) × ((name f ≡ codes "malloc") ⊎ (name f ≡ codes "free"))
          ⊎ IsMemId (intrinsic_id f))
  unfolding is_fn_mem_ops is_fn_malloc is_fn_free is_fn_memcpy is_fn_memmove is_fn_memset
  is_fn_mem_ops_iff f = ground (
    arith,
    is_named_iff (is_declaration f) (name f) (codes "malloc") refl,
    is_named_iff (is_declaration f) (name f) (codes "free") refl,
    IsMemId-iff (intrinsic_id f),
  )
