-- ===== src/PosixMain/Laws.antt =====
-- What LLVM's documentation says of the functions that the pass calls.
use mathlib.Core.List.{Memᴰ}
use snippets_llvm.Base.{◌≡◌, ◌≢◌, ◌↔◌, ◌⊎◌, Bool, true, false, none, some, List, [], ◌++◌, Text}
use snippets_llvm.Outcome.{ok, fault, assertion}
use snippets_llvm.Llvm.{Ir, is_integer_ty, is_pointer_ty}
use snippets_llvm.PosixMain.{MainEditor}

-- No two functions of a module have one name.
abbrev pub IsNamed : (ir : Ir) (ed : MainEditor ir) → ed.Module → Type 0
IsNamed ir ed m =
    (f g : ed.Fn)
    → Memᴰ f (ed.functions m)
    → Memᴰ g (ed.functions m)
    → ed.fn_name m f ≡ ed.fn_name m g
    → f ≡ g

-- In the second module a function has all that it has in the first, but maybe its name.
pub record Kept (ir : Ir) (ed : MainEditor ir) (m n : ed.Module) (f : ed.Fn) : Type 0 where
  pub params : ed.params n f ≡ ed.params m f
  pub linkage : ed.linkage n f ≡ ed.linkage m f
  pub attributes : ed.attributes n f ≡ ed.attributes m f
  pub blocks : ed.blocks n f ≡ ed.blocks m f

pub record IsMainEditor (ir : Ir) (ed : MainEditor ir) : Type 0 where
  -- Looking up by name
  pub found :
      (m : ed.Module) (t : Text) (f : ed.Fn)
      → ed.get_function m t ≡ some f
      → Memᴰ f (ed.functions m) × (ed.fn_name m f ≡ t)
  pub missing :
      (m : ed.Module) (t : Text) (f : ed.Fn)
      → ed.get_function m t ≡ none
      → Memᴰ f (ed.functions m)
      → ed.fn_name m f ≢ t
  -- `getNamedValue`: whether a function, a variable or an alias has the name
  pub has_name : ed.Module → Text → Bool
  -- whether some instruction or constant uses the function, by a call or as an address
  pub is_used : ed.Module → ed.Fn → Bool
  -- Renaming to a name that nothing has: the old name is free then.
  pub rename_functions :
      (m : ed.Module) (f : ed.Fn) (t : Text) → ed.functions (ed.set_name m f t) ≡ ed.functions m
  pub rename_frees :
      (m : ed.Module) (f : ed.Fn) (t u : Text)
      → IsNamed ir ed m
      → ed.get_function m u ≡ some f
      → has_name m t ≡ false
      → u ≢ t
      → has_name (ed.set_name m f t) u ≡ false
  pub rename_other :
      (m : ed.Module) (f g : ed.Fn) (t : Text)
      → f ≢ g
      → ed.fn_name (ed.set_name m f t) g ≡ ed.fn_name m g
  pub rename_kept : (m : ed.Module) (f g : ed.Fn) (t : Text) → Kept ir ed m (ed.set_name m f t) g
  pub rename_used :
      (m : ed.Module) (f g : ed.Fn) (t : Text) → is_used (ed.set_name m f t) g ≡ is_used m g
  -- Creating: the function is new and has no blocks, and others stay as they are.
  pub create_new :
      (m : ed.Module) (ts : List ir.Ty) (l : ed.Linkage) (t : Text)
      → ¬ Memᴰ (ed.create_function m ts l t).1 (ed.functions m)
  pub create_functions :
      (m : ed.Module) (ts : List ir.Ty) (l : ed.Linkage) (t : Text) (g : ed.Fn)
      → Memᴰ g (ed.functions (ed.create_function m ts l t).0)
        ↔ ((g ≡ (ed.create_function m ts l t).1) ⊎ Memᴰ g (ed.functions m))
  pub create_self :
      (m : ed.Module) (ts : List ir.Ty) (l : ed.Linkage) (t : Text)
      → (ed.params (ed.create_function m ts l t).0 (ed.create_function m ts l t).1 ≡ ts)
        × (ed.linkage (ed.create_function m ts l t).0 (ed.create_function m ts l t).1 ≡ l)
        × (ed.blocks (ed.create_function m ts l t).0 (ed.create_function m ts l t).1 ≡ [])
  pub create_name :
      (m : ed.Module) (ts : List ir.Ty) (l : ed.Linkage) (t : Text)
      → has_name m t ≡ false
      → ed.fn_name (ed.create_function m ts l t).0 (ed.create_function m ts l t).1 ≡ t
  pub create_other :
      (m : ed.Module) (ts : List ir.Ty) (l : ed.Linkage) (t : Text) (g : ed.Fn)
      → Memᴰ g (ed.functions m)
      → (ed.fn_name (ed.create_function m ts l t).0 g ≡ ed.fn_name m g)
        × Kept ir ed m (ed.create_function m ts l t).0 g
  pub create_used :
      (m : ed.Module) (ts : List ir.Ty) (l : ed.Linkage) (t : Text) (g : ed.Fn)
      → Memᴰ g (ed.functions m)
      → is_used (ed.create_function m ts l t).0 g ≡ is_used m g
  -- Setting attributes
  pub set_functions :
      (m : ed.Module) (f : ed.Fn) (a : ed.Attributes)
      → ed.functions (ed.set_attributes m f a) ≡ ed.functions m
  pub set_name_kept :
      (m : ed.Module) (f g : ed.Fn) (a : ed.Attributes)
      → ed.fn_name (ed.set_attributes m f a) g ≡ ed.fn_name m g
  pub set_self :
      (m : ed.Module) (f : ed.Fn) (a : ed.Attributes)
      → (ed.params (ed.set_attributes m f a) f ≡ ed.params m f)
        × (ed.linkage (ed.set_attributes m f a) f ≡ ed.linkage m f)
        × (ed.attributes (ed.set_attributes m f a) f ≡ a)
        × (ed.blocks (ed.set_attributes m f a) f ≡ ed.blocks m f)
  pub set_other :
      (m : ed.Module) (f g : ed.Fn) (a : ed.Attributes)
      → f ≢ g
      → Kept ir ed m (ed.set_attributes m f a) g
  pub set_used :
      (m : ed.Module) (f g : ed.Fn) (a : ed.Attributes)
      → is_used (ed.set_attributes m f a) g ≡ is_used m g
  -- Splicing the blocks of one function in front of those of another
  pub splice_functions :
      (m : ed.Module) (to from : ed.Fn) → ed.functions (ed.splice m to from) ≡ ed.functions m
  pub splice_name :
      (m : ed.Module) (to from g : ed.Fn) → ed.fn_name (ed.splice m to from) g ≡ ed.fn_name m g
  pub splice_self :
      (m : ed.Module) (to from : ed.Fn)
      → to ≢ from
      → (ed.params (ed.splice m to from) to ≡ ed.params m to)
        × (ed.linkage (ed.splice m to from) to ≡ ed.linkage m to)
        × (ed.attributes (ed.splice m to from) to ≡ ed.attributes m to)
        × (ed.blocks (ed.splice m to from) to ≡ ed.blocks m from ++ ed.blocks m to)
  pub splice_other :
      (m : ed.Module) (to from g : ed.Fn) → to ≢ g → from ≢ g → Kept ir ed m (ed.splice m to from) g
  pub splice_from :
      (m : ed.Module) (to from : ed.Fn) → to ≢ from → ed.blocks (ed.splice m to from) from ≡ []
  pub splice_used :
      (m : ed.Module) (to from g : ed.Fn) → is_used (ed.splice m to from) g ≡ is_used m g
  -- Erasing: a function without blocks must not be used any more.
  pub erased : ed.Module → ed.Fn → ed.Module
  pub erase_unused :
      (m : ed.Module) (f : ed.Fn) → is_used m f ≡ false → ed.erase_from_parent m f ≡ ok (erased m f)
  pub erase_used :
      (m : ed.Module) (f : ed.Fn)
      → ed.blocks m f ≡ []
      → is_used m f ≡ true
      → ed.erase_from_parent m f ≡ fault assertion
  pub erase_functions :
      (m : ed.Module) (f g : ed.Fn)
      → Memᴰ g (ed.functions (erased m f)) ↔ (Memᴰ g (ed.functions m) × (g ≢ f))
  pub erase_other :
      (m : ed.Module) (f g : ed.Fn)
      → g ≢ f
      → (ed.fn_name (erased m f) g ≡ ed.fn_name m g) × Kept ir ed m (erased m f) g

-- The types of the parameters of `int(int, char **)`.
pub record IsMainType (ir : Ir) (ed : MainEditor ir) : Type 0 where
  pub int_is : is_integer_ty ir ed.int_ty ≡ true
  pub char_ptr : ir.Ty
  pub char : ir.Ty
  pub argv_is : is_pointer_ty ir ed.argv_ty ≡ true
  pub argv_pointee : ir.pointee ed.argv_ty ≡ some char_ptr
  pub char_ptr_is : is_pointer_ty ir char_ptr ≡ true
  pub char_ptr_pointee : ir.pointee char_ptr ≡ some char
  pub char_is : is_integer_ty ir char ≡ true
  pub char_width : ed.bit_width char ≡ 8
