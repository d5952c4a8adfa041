-- ===== src/CountBb/Setup.antt =====
-- What LLVM's documentation says of the functions with which `setup` changes a module.
pub mod Extends
pub mod Steps
pub mod Handler
pub mod Ready
pub mod Registers
pub mod Instruments
pub mod Totals
pub mod Preserves
pub mod Sample
pub mod Tests
use mathlib.Core.List.{Memᴰ}
use snippets_llvm.Base.{
  ℕ, Bool, true, false, Option, none, some, List, [], ◌∷◌, ◌++◌, ◌≡◌, ◌≢◌, ◌⊎◌, Text,
}
use snippets_llvm.CountBb.{Editor, FnType, Operation}
use snippets_llvm.CountBb.Visits.{IsEditor}

-- The two modules differ in their globals only.
pub record KeepsCode (e : Editor) (m n : e.Module) : Type 0 where
  pub functions : e.functions n ≡ e.functions m
  pub fn_name : e.fn_name n ≡ e.fn_name m
  pub blocks : e.blocks n ≡ e.blocks m
  pub insts : e.insts n ≡ e.insts m
  pub terminators : e.terminator n ≡ e.terminator m
  pub get_function : e.get_function n ≡ e.get_function m

pub record IsSetupEditor (e : Editor) (laws : IsEditor e) : Type 0 where
  -- two pointers to blocks are equal
  pub block_eq : Discrete e.Block
  pub found :
      (m : e.Module) (t : Text) (f : e.Fn)
      → e.get_function m t ≡ some f
      → Memᴰ f (e.functions m) × (e.fn_name m f ≡ t)
  -- `getNamedValue`: whether a function, a variable of any linkage or an alias has the name
  pub has_name : e.Module → Text → Bool
  pub free :
      (m : e.Module) (t : Text)
      → has_name m t ≡ false
      → (e.get_function m t ≡ none) × (e.get_global_variable m t ≡ none)
  -- Variables: a new one gets its name if no global value has that, and takes no other one's name;
  -- `getGlobalVariable` finds those that are not internal.
  pub counter_keeps : (m : e.Module) (t : Text) (n : ℕ) → KeepsCode e m (e.new_counter m t n).0
  pub counter_found :
      (m : e.Module) (t : Text) (n : ℕ)
      → has_name m t ≡ false
      → e.get_global_variable (e.new_counter m t n).0 t ≡ some (e.new_counter m t n).1
  pub counter_names :
      (m : e.Module) (t u : Text) (n : ℕ)
      → has_name m t ≡ false
      → u ≢ t
      → has_name (e.new_counter m t n).0 u ≡ has_name m u
  pub text_keeps : (m : e.Module) (t name : Text) → KeepsCode e m (e.new_text m t name).0
  pub text_globals :
      (m : e.Module) (t name u : Text) (g : e.Global)
      → e.get_global_variable m u ≡ some g
      → e.get_global_variable (e.new_text m t name).0 u ≡ some g
  -- `getOrInsertFunction`: the function with the name if it has the type, or a new declaration at
  -- the end, if no global value has the name
  pub has_type : e.Fn → FnType → Bool
  pub inserted_old :
      (m : e.Module) (t : Text) (ty : FnType) (no_unwind : Bool) (f : e.Fn)
      → e.get_function m t ≡ some f
      → has_type f ty ≡ true
      → e.get_or_insert_function m t ty no_unwind ≡ (m, some f)
  pub inserted_new :
      (m : e.Module) (t : Text) (ty : FnType) (no_unwind : Bool)
      → has_name m t ≡ false
      → (f : e.Fn) × ((e.get_or_insert_function m t ty no_unwind).1 ≡ some f)
        × (e.functions (e.get_or_insert_function m t ty no_unwind).0 ≡ e.functions m ++ (f ∷ []))
        × (e.fn_name (e.get_or_insert_function m t ty no_unwind).0 f ≡ t)
        × (e.blocks (e.get_or_insert_function m t ty no_unwind).0 f ≡ [])
        × ((g : e.Fn)
            → Memᴰ g (e.functions m)
            → (e.fn_name (e.get_or_insert_function m t ty no_unwind).0 g ≡ e.fn_name m g)
              × (e.blocks (e.get_or_insert_function m t ty no_unwind).0 g ≡ e.blocks m g))
  pub inserted_code :
      (m : e.Module) (t : Text) (ty : FnType) (no_unwind : Bool)
      → (e.insts (e.get_or_insert_function m t ty no_unwind).0 ≡ e.insts m)
        × (e.terminator (e.get_or_insert_function m t ty no_unwind).0 ≡ e.terminator m)
        × (e.get_global_variable (e.get_or_insert_function m t ty no_unwind).0
            ≡ e.get_global_variable m)
  pub inserted_others :
      (m : e.Module) (t u : Text) (ty : FnType) (no_unwind : Bool)
      → u ≢ t
      → e.get_function (e.get_or_insert_function m t ty no_unwind).0 u ≡ e.get_function m u
  pub inserted_names :
      (m : e.Module) (t u : Text) (ty : FnType) (no_unwind : Bool)
      → u ≢ t
      → has_name (e.get_or_insert_function m t ty no_unwind).0 u ≡ has_name m u
  -- A new block stands at the end of its function, and is empty.
  pub block_module :
      (m : e.Module) (t : Text) (f : e.Fn)
      → (e.functions (e.create_block m t f).0 ≡ e.functions m)
        × (e.fn_name (e.create_block m t f).0 ≡ e.fn_name m)
        × (e.get_function (e.create_block m t f).0 ≡ e.get_function m)
        × (e.get_global_variable (e.create_block m t f).0 ≡ e.get_global_variable m)
  pub block_names :
      (m : e.Module) (t : Text) (f : e.Fn) → has_name (e.create_block m t f).0 ≡ has_name m
  pub block_own :
      (m : e.Module) (t : Text) (f : e.Fn)
      → e.blocks (e.create_block m t f).0 f ≡ e.blocks m f ++ ((e.create_block m t f).1 ∷ [])
  pub block_other :
      (m : e.Module) (t : Text) (f g : e.Fn)
      → f ≢ g
      → e.blocks (e.create_block m t f).0 g ≡ e.blocks m g
  pub block_fresh :
      (m : e.Module) (t : Text) (f g : e.Fn)
      → Memᴰ g (e.functions m)
      → ¬ Memᴰ (e.create_block m t f).1 (e.blocks m g)
  pub block_empty :
      (m : e.Module) (t : Text) (f : e.Fn)
      → e.insts (e.create_block m t f).0 (e.create_block m t f).1 ≡ []
  pub block_elsewhere :
      (m : e.Module) (t : Text) (f : e.Fn) (c : e.Block)
      → (e.create_block m t f).1 ≢ c
      → (e.insts (e.create_block m t f).0 c ≡ e.insts m c)
        × (e.terminator (e.create_block m t f).0 c ≡ e.terminator m c)
  -- An instruction that is created before another one, in addition to `IsEditor`
  pub before_functions :
      (m : e.Module) (o : Operation e.Inst e.Fn e.Global e.Constant) (n : Text) (p : Option e.Inst)
      → (e.functions (e.create_before m o n p).0 ≡ e.functions m)
        × (e.get_function (e.create_before m o n p).0 ≡ e.get_function m)
  pub before_names :
      (m : e.Module) (o : Operation e.Inst e.Fn e.Global e.Constant) (n : Text) (p : Option e.Inst)
      → has_name (e.create_before m o n p).0 ≡ has_name m
  pub before_first :
      (m : e.Module) (o : Operation e.Inst e.Fn e.Global e.Constant) (n : Text) (b : e.Block)
      (i : e.Inst) (is : List e.Inst)
      → e.insts m b ≡ i ∷ is
      → ¬ Memᴰ i is
      → e.insts (e.create_before m o n (some i)).0 b ≡ (e.create_before m o n (some i)).1 ∷ i ∷ is
  pub before_elsewhere :
      (m : e.Module) (o : Operation e.Inst e.Fn e.Global e.Constant) (n : Text) (b c : e.Block)
      (i : e.Inst) (is : List e.Inst)
      → e.insts m b ≡ i ∷ is
      → b ≢ c
      → e.insts (e.create_before m o n (some i)).0 c ≡ e.insts m c
  -- An instruction that is created at the end of a block
  pub at_end_module :
      (m : e.Module) (o : Operation e.Inst e.Fn e.Global e.Constant) (n : Text) (b : e.Block)
      → (e.functions (e.create_at_end m o n b).0 ≡ e.functions m)
        × (e.fn_name (e.create_at_end m o n b).0 ≡ e.fn_name m)
        × (e.blocks (e.create_at_end m o n b).0 ≡ e.blocks m)
        × (e.get_function (e.create_at_end m o n b).0 ≡ e.get_function m)
        × (e.get_global_variable (e.create_at_end m o n b).0 ≡ e.get_global_variable m)
  pub at_end_created :
      (m : e.Module) (o : Operation e.Inst e.Fn e.Global e.Constant) (n : Text) (b : e.Block)
      → (laws.operation (e.create_at_end m o n b).1 ≡ some o)
        × (e.insts (e.create_at_end m o n b).0 b
            ≡ e.insts m b ++ ((e.create_at_end m o n b).1 ∷ []))
  pub at_end_elsewhere :
      (m : e.Module) (o : Operation e.Inst e.Fn e.Global e.Constant) (n : Text) (b c : e.Block)
      → b ≢ c
      → (e.insts (e.create_at_end m o n b).0 c ≡ e.insts m c)
        × (e.terminator (e.create_at_end m o n b).0 c ≡ e.terminator m c)

-- A function that is asked for by name and type is there with the type, or no global
-- value has its name.
abbrev pub IsUsable :
    (e : Editor) (laws : IsEditor e) → IsSetupEditor e laws → e.Module → Text → FnType → Type 0
IsUsable e laws setups m t ty =
    (setups.has_name m t ≡ false)
    ⊎ ((f : e.Fn) × (e.get_function m t ≡ some f) × (setups.has_type f ty ≡ true))
