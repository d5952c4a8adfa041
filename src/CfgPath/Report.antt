-- ===== src/CfgPath/Report.antt =====
-- The output of the pass: for each block, the blocks that it reaches.
use mathlib.Core.List.{append_assoc}
use snippets_llvm.Base.{
  Bool, true, false, some, List, [], ◌∷◌, ◌++◌, ◌≡◌, ◌↔◌, refl, arith, codes, keep, flat_map,
}
use snippets_llvm.Errs.{Chunk, text}
use snippets_llvm.CfgPath.{Cfg, traverse_row, traverse_blocks, traverse_path, run_on_function}
use snippets_llvm.CfgPath.Reach.{Reach}
use snippets_llvm.CfgPath.Correct.{has_path_reaches}

module _ (F : Cfg) where
  open F use {Block, block_eq, fn_name, blocks, name}

  -- The table in which a block is listed behind another if the test says so, in block order.
  abbrev pub row : (Block → Block → Bool) → Block → List Chunk
  row p b1 = flat_map (λ b2. text (name b2) ∷ text (codes " ") ∷ []) (keep (p b1) blocks)

  abbrev pub table : (Block → Block → Bool) → List Block → List Chunk
  table p = flat_map λ b1. text (name b1) ∷ text (codes ": ") ∷ row p b1 ++ (text (codes "\n") ∷ [])

  -- Another block that a walk leads to.
  reaches : Block → Block → Bool
  reaches b1 b2 = elim (block_eq b1 b2) [ yes _ ↦ false | no _ ↦ (has_path_reaches F b1 b2).0 ]

  reaches_iff : (b1 b2 : Block) → (reaches b1 b2 ≡ true) ↔ (¬ (b1 ≡ b2)) × ∥ Reach F b2 b1 ∥₁
  unfolding reaches
  reaches_iff b1 b2 = ground (arith, (has_path_reaches F b1 b2).2, block_eq b1 b2)

  traverse_row-eq :
      (b1 : Block) (bs : List Block)
      → traverse_row F b1 [] bs
        ≡ some (flat_map (λ b2. text (name b2) ∷ text (codes " ") ∷ []) (keep (reaches b1) bs))
  unfolding traverse_row reaches
  traverse_row-eq b1 [] = refl
  traverse_row-eq b1 (b2 ∷ bs) =
      ground (arith, traverse_row-eq b1 bs, (has_path_reaches F b1 b2).1, block_eq b1 b2)

  traverse_blocks-eq : (bs : List Block) → traverse_blocks F [] bs ≡ some (table reaches bs)
  unfolding traverse_blocks
  traverse_blocks-eq [] = refl
  traverse_blocks-eq (b ∷ bs) =
      rw (traverse_row-eq b blocks, traverse_blocks)
        (rw (traverse_blocks-eq bs)
          (cc (append_assoc (row reaches b) (text (codes "\n") ∷ []) (table reaches bs))))

  -- `traversePath` ends, and its table lists behind each block exactly the other blocks that some
  -- walk leads to from it, in the function's order.
  traverse_path-table :
      (p : Block → Block → Bool) × ((b1 b2 : Block)
        → (p b1 b2 ≡ true) ↔ ((¬ (b1 ≡ b2)) × ∥ Reach F b2 b1 ∥₁))
      × (traverse_path F
          ≡ some (text (codes "Func: ") ∷ text fn_name ∷ text (codes "\n") ∷ table p blocks))
  unfolding traverse_path
  traverse_path-table = (reaches, reaches_iff, rw (traverse_blocks-eq blocks))

  -- The pass ends and changes nothing, and its table lists behind each block exactly the other blocks
  -- that some walk leads to from it, in the function's order.
  pub run_on_function-table :
      (p : Block → Block → Bool) × ((b1 b2 : Block)
        → (p b1 b2 ≡ true) ↔ ((¬ (b1 ≡ b2)) × ∥ Reach F b2 b1 ∥₁))
      × (run_on_function F
          ≡ some (text (codes "Func: ") ∷ text fn_name ∷ text (codes "\n") ∷ table p blocks, false))
  unfolding run_on_function
  run_on_function-table = let (p, lists, e) = traverse_path-table in (p, lists, rw e refl)
