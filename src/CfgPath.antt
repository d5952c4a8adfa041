-- ===== src/CfgPath.antt =====
-- lib/snippets/DumpCFGPath.cc: the search of `hasPath` and the pass's output.
pub mod Reach
pub mod Total
pub mod Correct
pub mod Report
pub mod Tests
use mathlib.Core.List.{Memᴰ}
use mathlib.Core.Option
use snippets_llvm.Errs.{Chunk, text}
use snippets_llvm.Base.{
  ℕ, zero, suc, Bool, true, false, Option, none, some, List, [], ◌∷◌, ◌++◌, ◌≡◌, Text, codes,
  length, contains, insert, if◌then◌else◌,
}

-- What the pass reads of a function: its blocks in order, their names, and `succ_begin` to
-- `succ_end` of a block. A block is known by its address.
pub record Cfg : Type 1 where
  pub Block : Type 0
  pub block_eq : Discrete Block
  pub fn_name : Text
  pub blocks : List Block
  pub name : Block → Text
  pub succs : Block → List Block
  -- A terminator branches to blocks of its own function.
  pub succs_in : (b s : Block) → Memᴰ s (succs b) → Memᴰ s blocks

module _ (F : Cfg) where
  open F use {Block, block_eq, fn_name, blocks, name, succs}

  -- The loop over the successors; `none` means that the fuel of a call ran out.
  pub try_succs : (Block → Option Bool) → List Block → List Block → Option Bool
  try_succs search visited [] = some false
  try_succs search visited (s ∷ ss) =
      let rest = try_succs search visited ss in
      if contains block_eq visited s
      then rest
      else elim (search s) [ none ↦ none | some true ↦ some true | some false ↦ rest ]

  -- `hasPath`: `visited` is passed by value, so a call works on a copy of its own.
  pub has_path_in : ℕ → Block → Block → List Block → Option Bool
  has_path_in zero b1 b2 visited = none
  has_path_in (suc fuel) b1 b2 visited =
      let visited' = insert block_eq b1 visited in
      let rest = try_succs (λ s. has_path_in fuel s b2 visited') visited' (succs b1) in
      elim (block_eq b1 b2) [ yes _ ↦ some true | no _ ↦ rest ]

  -- A call deeper than the number of blocks would have visited them all.
  pub has_path : Block → Block → List Block → Option Bool
  has_path = has_path_in (suc (length blocks))

  -- The inner loop of `traversePath`, over the blocks left.
  pub traverse_row : Block → List Block → List Block → Option (List Chunk)
  traverse_row b1 visited [] = some []
  traverse_row b1 visited (b2 ∷ bs) =
      let rest = traverse_row b1 visited bs in
      elim (block_eq b1 b2) [
        | yes _ ↦ rest
        | no _ ↦ elim (has_path b1 b2 visited) [
          | none ↦ none
          | some true ↦ Option.map (λ out. text (name b2) ∷ text (codes " ") ∷ out) rest
          | some false ↦ rest
        ]
      ]

  -- Its outer loop: `visited` is cleared behind each row.
  pub traverse_blocks : List Block → List Block → Option (List Chunk)
  traverse_blocks visited [] = some []
  traverse_blocks visited (b1 ∷ bs) =
      let rest = traverse_blocks [] bs in
      elim (traverse_row b1 visited blocks) [
        | none ↦ none
        | some row ↦
            Option.map
              (λ out. text (name b1) ∷ text (codes ": ") ∷ row ++ (text (codes "\n") ∷ out)) rest
      ]

  pub traverse_path : Option (List Chunk)
  traverse_path =
      Option.map (λ out. text (codes "Func: ") ∷ text fn_name ∷ text (codes "\n") ∷ out)
        (traverse_blocks [] blocks)

  -- `runOnFunction`: the pass changes nothing.
  unfoldable pub run_on_function : Option (List Chunk × Bool)
  run_on_function = Option.map (λ out. (out, false)) traverse_path
