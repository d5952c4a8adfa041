-- ===== src/Dump/Linkage.antt =====
-- lib/mybase/LLDump.cc, `dumpLinkageType` and `dumpGVInfo`.
use snippets_llvm.Base.{Bool, true, false, List, [], ◌∷◌, ◌++◌, Text, codes}
use snippets_llvm.Errs.{Run, pure, write, ◌>>◌}

-- The tests of a linkage type that `LIST` names.
pub data Key : Type 0 where
  external_linkage available_externally_linkage link_once_linkage weak_linkage : Key
  appending_linkage internal_linkage private_linkage local_linkage common_linkage : Key
  discardable_if_unused weak_for_linker : Key

-- `#key`
abbrev pub key_text : Key → Text
key_text external_linkage = codes "ExternalLinkage"
key_text available_externally_linkage = codes "AvailableExternallyLinkage"
key_text link_once_linkage = codes "LinkOnceLinkage"
key_text weak_linkage = codes "WeakLinkage"
key_text appending_linkage = codes "AppendingLinkage"
key_text internal_linkage = codes "InternalLinkage"
key_text private_linkage = codes "PrivateLinkage"
key_text local_linkage = codes "LocalLinkage"
key_text common_linkage = codes "CommonLinkage"
key_text discardable_if_unused = codes "DiscardableIfUnused"
key_text weak_for_linker = codes "WeakForLinker"

-- `LIST`, in its order
abbrev pub key_list : List Key
key_list =
    external_linkage ∷ available_externally_linkage ∷ link_once_linkage ∷ weak_linkage
    ∷ appending_linkage ∷ internal_linkage ∷ private_linkage ∷ private_linkage ∷ local_linkage
    ∷ external_linkage ∷ common_linkage ∷ discardable_if_unused ∷ weak_for_linker ∷ []

-- A `bool` is printed as a number.
abbrev pub bool_text : Bool → Text
bool_text true = codes "1"
bool_text false = codes "0"

-- Over LLVM's linkage types, with the tests `GlobalValue::isExternalLinkage` and so on.
module _ (LinkageType : Type 0) (is_key : Key → LinkageType → Bool) where
  unfoldable pub dump_lty_info : Key → LinkageType → Run (Unit {0})
  dump_lty_info key lty =
      write (key_text key ++ (codes "=" ++ (bool_text (is_key key lty) ++ codes "; ")))

  unfoldable pub dump_keys : List Key → LinkageType → Run (Unit {0})
  dump_keys [] lty = pure tt
  dump_keys (key ∷ keys) lty = do dump_lty_info key lty; dump_keys keys lty

  unfoldable pub dump_linkage_type : LinkageType → Run (Unit {0})
  dump_linkage_type lty = dump_keys key_list lty

  -- of a global value that is materializable or not, and has a linkage type
  unfoldable pub dump_gv_info : Bool → LinkageType → Run (Unit {0})
  dump_gv_info is_materializable lty = do
    write (codes "isMaterializable: " ++ (bool_text is_materializable ++ codes "; "))
    dump_linkage_type lty
    write (codes "\n")
