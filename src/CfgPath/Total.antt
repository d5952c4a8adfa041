-- ===== src/CfgPath/Total.antt =====
-- The recursion of `hasPath` ends: each deeper call has one more block of the function visited.
use mathlib.Core.List.{Memᴰ}
use mathlib.Core.List.Memᴰ
use snippets_llvm.Base.{
  ℕ, zero, suc, ◌≤◌, ◌<◌, Bool, true, false, Option, some, List, [], ◌∷◌, ◌≡◌, refl, arith, length,
  contains, insert, contains-insert, if◌then◌else◌, Bool-cases, Memᴰ-cons, inl, inr,
}
use snippets_llvm.CfgPath.{Cfg, try_succs, has_path_in, has_path}

module _ {ℓ} {A : Type ℓ} (eq : Discrete A) where
  -- How many of the elements have not been visited.
  unvisited : List A → List A → ℕ
  unvisited visited [] = 0
  unvisited visited (b ∷ bs) =
      let n = unvisited visited bs in if contains eq visited b then n else suc n

  unvisited-le-length : (visited bs : List A) → unvisited visited bs ≤ length bs
  unfolding unvisited
  unvisited-le-length visited [] = omega arith
  unvisited-le-length visited (b ∷ bs) = ground (arith, unvisited-le-length visited bs)

  unvisited-insert-le :
      (a : A) (visited bs : List A) → unvisited (insert eq a visited) bs ≤ unvisited visited bs
  unfolding unvisited
  unvisited-insert-le a visited [] = omega arith
  unvisited-insert-le a visited (b ∷ bs) =
      ground (arith, unvisited-insert-le a visited bs, contains-insert eq a b visited)

  unvisited-insert-lt :
      (a : A) (visited bs : List A)
      → contains eq visited a ≡ false
      → Memᴰ a bs
      → unvisited (insert eq a visited) bs < unvisited visited bs
  unfolding unvisited
  unvisited-insert-lt a visited [] fresh m = absurd (Memᴰ.not-nil m)
  unvisited-insert-lt a visited (b ∷ bs) fresh m = ground (
    arith,
    unvisited-insert-le a visited bs,
    unvisited-insert-lt a visited bs,
    contains-insert eq a b visited,
    Memᴰ-cons a b bs,
    m,
    eq a b,
  )

module _ (F : Cfg) where
  open F use {Block, block_eq, blocks, succs, succs_in}

  -- A loop whose calls all return returns.
  try_succs-total :
      (search : Block → Option Bool) (visited ss : List Block)
      → ((s : Block)
          → Memᴰ s ss
          → contains block_eq visited s ≡ false
          → (r : Bool) × (search s ≡ some r))
      → (r : Bool) × (try_succs F search visited ss ≡ some r)
  unfolding try_succs
  try_succs-total search visited [] h = (false, refl)
  try_succs-total search visited (s ∷ ss) h =
      let (r, e) = try_succs-total search visited ss (λ x m. h x (Memᴰ.tail m)) in
      elim (Bool-cases (contains block_eq visited s)) [
        | inl old ↦ (r, rw old e)
        | inr fresh ↦
            let (found, e') = h s (Memᴰ.head refl) fresh in
            (if found then true else r, rw (fresh, e') (ground arith))
      ]

  -- A call returns if its loop does.
  has_path_in-of_loop :
      (fuel : ℕ) (b1 b2 : Block) (visited : List Block) {r : Bool}
      → try_succs F
          (λ s. has_path_in F fuel s b2 (insert block_eq b1 visited))
          (insert block_eq b1 visited)
          (succs b1)
        ≡ some r
      → (r' : Bool) × (has_path_in F (suc fuel) b1 b2 visited ≡ some r')
  unfolding has_path_in
  has_path_in-of_loop fuel b1 b2 visited {r} e = elim (block_eq b1 b2) [
    | yes same ↦ (true, ground arith)
    | no other ↦ (r, ground arith)
  ]

  has_path_in-total :
      (fuel : ℕ) (b1 b2 : Block) (visited : List Block)
      → unvisited block_eq (insert block_eq b1 visited) blocks ≤ fuel
      → (r : Bool) × (has_path_in F (suc fuel) b1 b2 visited ≡ some r)
  has_path_in-total zero b1 b2 visited h =
      let now = insert block_eq b1 visited in
      let (r, e) =
        try_succs-total (λ s. has_path_in F zero s b2 now) now (succs b1)
          (λ s m fresh.
            absurd
              (omega (arith, unvisited-insert-lt block_eq s now blocks fresh (succs_in b1 s m)))) in
      has_path_in-of_loop zero b1 b2 visited e
  has_path_in-total (suc fuel) b1 b2 visited h =
      let now = insert block_eq b1 visited in
      let (r, e) =
        try_succs-total (λ s. has_path_in F (suc fuel) s b2 now) now (succs b1)
          (λ s m fresh.
            has_path_in-total fuel s b2 now
              (omega (arith, unvisited-insert-lt block_eq s now blocks fresh (succs_in b1 s m)))) in
      has_path_in-of_loop (suc fuel) b1 b2 visited e

  -- The call returns, whatever has been visited: the fuel is never the limit.
  pub has_path-total :
      (b1 b2 : Block) (visited : List Block) → (r : Bool) × (has_path F b1 b2 visited ≡ some r)
  unfolding has_path
  has_path-total b1 b2 visited =
      has_path_in-total (length blocks) b1 b2 visited
        (unvisited-le-length block_eq (insert block_eq b1 visited) blocks)
