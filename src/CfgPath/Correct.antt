-- ===== src/CfgPath/Correct.antt =====
-- `hasPath` answers true exactly when some walk leads from the one block to the other.
use mathlib.Core.HLevel.{⊥_prop}
use mathlib.Core.List.{Memᴰ}
use mathlib.Core.List.Memᴰ
use mathlib.Core.Logic.{∥∥₁_elim, ∥∥₁_map}
use snippets_llvm.Base.{
  ℕ, zero, suc, Bool, true, false, Option, none, some, List, [], ◌∷◌, ◌≡◌, ◌↔◌, refl, arith,
  contains, insert, Bool-cases, Memᴰ-cons, inl, inr, length,
}
use snippets_llvm.CfgPath.{Cfg, try_succs, has_path_in, has_path}
use snippets_llvm.CfgPath.Reach.{Reach, Walk, Walk-Reach, Reach-Walk, Walk-forget, last-Exit}
use snippets_llvm.CfgPath.Total.{has_path-total}

module _ (F : Cfg) where
  open F use {Block, block_eq, blocks, succs}

  -- The loop answers true by one of its calls.
  try_succs-true :
      (search : Block → Option Bool) (visited ss : List Block)
      → try_succs F search visited ss ≡ some true
      → (s : Block) × Memᴰ s ss × (contains block_eq visited s ≡ false) × (search s ≡ some true)
  unfolding try_succs
  try_succs-true search visited [] h = cc
  try_succs-true search visited (s ∷ ss) h = elim (Bool-cases (contains block_eq visited s)) [
    | inl old ↦
        let (t, m, fresh, e) = try_succs-true search visited ss (ground arith) in
        (t, Memᴰ.tail m, fresh, e)
    | inr fresh ↦ go fresh (search s) refl (try_succs-true search visited ss)
  ]
    where
      Found : List Block → Type 0
      Found xs =
          (t : Block) × Memᴰ t xs × (contains block_eq visited t ≡ false) × (search t ≡ some true)

      go :
          contains block_eq visited s ≡ false
          → (r : Option Bool) → search s ≡ r
          → (try_succs F search visited ss ≡ some true → Found ss)
          → Found (s ∷ ss)
      go fresh none e later = ground arith
      go fresh (some true) e later = (s, Memᴰ.head refl, fresh, e)
      go fresh (some false) e later =
          let (t, m, new, e') = later (ground arith) in (t, Memᴰ.tail m, new, e')

  -- It answers false only if all its calls do.
  try_succs-false :
      (search : Block → Option Bool) (visited ss : List Block) (s : Block)
      → try_succs F search visited ss ≡ some false
      → Memᴰ s ss
      → contains block_eq visited s ≡ false
      → search s ≡ some false
  unfolding try_succs
  try_succs-false search visited [] s h m fresh = absurd (Memᴰ.not-nil m)
  try_succs-false search visited (x ∷ ss) s h m fresh =
      ground (arith, Memᴰ-cons s x ss, try_succs-false search visited ss s)

  has_path_in_sound :
      (fuel : ℕ) (b1 b2 : Block) (visited : List Block)
      → has_path_in F fuel b1 b2 visited ≡ some true
      → Walk F visited b2 b1
  unfolding has_path_in
  has_path_in_sound zero b1 b2 visited h = cc
  has_path_in_sound (suc fuel) b1 b2 visited h = elim (block_eq b1 b2) [
    | yes same ↦ Walk.here same
    | no other ↦
        let now = insert block_eq b1 visited in
        let (s, m, fresh, e) =
          try_succs-true (λ s. has_path_in F fuel s b2 now) now (succs b1) (ground arith) in
        Walk-forget F b1 visited (Walk.next m fresh (has_path_in_sound fuel s b2 now e))
  ]

  has_path_in_complete :
      (fuel : ℕ) (b1 b2 : Block) (visited : List Block)
      → has_path_in F fuel b1 b2 visited ≡ some false
      → ¬ Walk F visited b2 b1
  unfolding has_path_in
  has_path_in_complete zero b1 b2 visited h w = cc
  has_path_in_complete (suc fuel) b1 b2 visited h w = elim (block_eq b1 b2) [
    | yes same ↦ ground arith
    | no other ↦
        let now = insert block_eq b1 visited in
        let (s, m, fresh, w') = last-Exit F visited b1 other w in
        has_path_in_complete fuel s b2 now
          (try_succs-false (λ s. has_path_in F fuel s b2 now) now (succs b1) s (ground arith) m
            fresh)
          w'
  ]

  -- `hasPath` always returns, and answers true exactly when some walk leads from the first block to
  -- the second and enters no visited block.
  pub has_path_decides :
      (b1 b2 : Block) (visited : List Block)
      → (r : Bool) × (has_path F b1 b2 visited ≡ some r) × ((r ≡ true) ↔ ∥ Walk F visited b2 b1 ∥₁)
  unfolding has_path
  has_path_decides b1 b2 visited =
      let (r, e) = has_path-total F b1 b2 visited in
      let missed = has_path_in_complete (suc (length blocks)) b1 b2 visited in
      (
        r,
        e,
        (
          λ h. ∣ has_path_in_sound (suc (length blocks)) b1 b2 visited (ground arith) ∣₁,
          λ w. elim (Bool-cases r) [
            | inl t ↦ t
            | inr f ↦ absurd (∥∥₁_elim w ⊥_prop (missed (ground arith)))
          ],
        ),
      )

  -- The search of the pass, which starts with nothing visited.
  pub has_path_reaches :
      (b1 b2 : Block)
      → (r : Bool) × (has_path F b1 b2 [] ≡ some r) × ((r ≡ true) ↔ ∥ Reach F b2 b1 ∥₁)
  has_path_reaches b1 b2 =
      let (r, e, walks) = has_path_decides b1 b2 [] in
      (r, e, (λ h. ∥∥₁_map (walks.0 h) (Walk-Reach F), λ w. walks.1 (∥∥₁_map w (Reach-Walk F))))
