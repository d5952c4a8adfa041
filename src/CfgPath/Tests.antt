-- ===== src/CfgPath/Tests.antt =====
-- The search and the pass on a small graph with a cycle.
use mathlib.Core.List.{Memᴰ}
use mathlib.Core.List.Memᴰ
use native.Mathlib.Decide.{ℕ_discrete}
use snippets_llvm.Base.{
  ℕ, zero, suc, Bool, true, false, some, List, [], ◌∷◌, ◌≡◌, ◌↔◌, refl, Text, codes, contains,
  insert,
}
use snippets_llvm.Errs.{text}
use snippets_llvm.CfgPath.{Cfg, has_path, has_path_in, try_succs, run_on_function}
use snippets_llvm.CfgPath.Reach.{Reach, Walk}
use snippets_llvm.CfgPath.Correct.{has_path_decides}
use snippets_llvm.CfgPath.Report.{table, run_on_function-table}

-- `entry -> cond; cond -> body; cond -> exit; body -> cond`, of res/FLOW/f1.dot
abbrev loop_succs : ℕ → List ℕ
loop_succs zero = 1 ∷ []
loop_succs (suc zero) = 2 ∷ 3 ∷ []
loop_succs (suc (suc zero)) = 1 ∷ []
loop_succs (suc (suc (suc n))) = []

abbrev loop_names : ℕ → Text
loop_names zero = codes "entry"
loop_names (suc zero) = codes "cond"
loop_names (suc (suc zero)) = codes "body"
loop_names (suc (suc (suc n))) = codes "exit"

loop_succs_in : (b s : ℕ) → Memᴰ s (loop_succs b) → Memᴰ s (0 ∷ 1 ∷ 2 ∷ 3 ∷ [])
loop_succs_in zero s m = Memᴰ.tail (Memᴰ.head (Memᴰ.eq_of_singleton m))
loop_succs_in (suc zero) s m = Memᴰ.tail (Memᴰ.tail m)
loop_succs_in (suc (suc zero)) s m = Memᴰ.tail (Memᴰ.head (Memᴰ.eq_of_singleton m))
loop_succs_in (suc (suc (suc n))) s m = absurd (Memᴰ.not-nil m)

abbrev loop_cfg : Cfg
loop_cfg = record {
  Block = ℕ;
  block_eq = ℕ_discrete;
  fn_name = codes "f";
  blocks = 0 ∷ 1 ∷ 2 ∷ 3 ∷ [];
  name = loop_names;
  succs = loop_succs;
  succs_in = loop_succs_in;
}

around : (has_path loop_cfg 2 3 [] ≡ some true) × (has_path loop_cfg 3 1 [] ≡ some false)
unfolding has_path has_path_in try_succs contains insert ℕ_discrete
around = (refl, refl)

-- With `cond` visited there is no way from `body` to `exit`.
blocked : has_path loop_cfg 2 3 (1 ∷ []) ≡ some false
unfolding has_path has_path_in try_succs contains insert ℕ_discrete
blocked = refl

has_path_decides_example :
    (r : Bool) × (has_path loop_cfg 2 3 (1 ∷ []) ≡ some r)
    × ((r ≡ true) ↔ ∥ Walk loop_cfg (1 ∷ []) 3 2 ∥₁)
has_path_decides_example = has_path_decides loop_cfg 2 3 (1 ∷ [])

run_on_function-table_example :
    (p : ℕ → ℕ → Bool) × ((b1 b2 : ℕ)
      → (p b1 b2 ≡ true) ↔ ((¬ (b1 ≡ b2)) × ∥ Reach loop_cfg b2 b1 ∥₁))
    × (run_on_function loop_cfg
        ≡ some (
          text (codes "Func: ")
              ∷ text (codes "f")
              ∷ text (codes "\n")
              ∷ table loop_cfg p (0 ∷ 1 ∷ 2 ∷ 3 ∷ []),
          false,
        ))
run_on_function-table_example = run_on_function-table loop_cfg
