-- ===== src/CfgPath/Reach.antt =====
-- What the search is held to: reachability in the control flow graph, and walks that avoid the
-- blocks visited before.
use mathlib.Core.Bool.{false}
use mathlib.Core.List.{Memᴰ}
use snippets_llvm.Base.{
  List, [], ◌≡◌, refl, subst, ◌⊎◌, inl, inr, contains, insert, contains-insert, arith,
}
use snippets_llvm.CfgPath.{Cfg}

-- Some sequence of branches leads to `t`.
pub data Reach (F : Cfg) (t : F.Block) : F.Block → Type 0 where
  here : {b : F.Block} → b ≡ t → Reach F t b
  next : {b s : F.Block} → Memᴰ s (F.succs b) → Reach F t s → Reach F t b

-- Such a sequence, all of whose blocks but the first are outside `visited`.
pub data Walk (F : Cfg) (visited : List F.Block) (t : F.Block) : F.Block → Type 0 where
  here : {b : F.Block} → b ≡ t → Walk F visited t b
  next :
      {b s : F.Block}
      → Memᴰ s (F.succs b)
      → contains F.block_eq visited s ≡ false
      → Walk F visited t s
      → Walk F visited t b

module _ (F : Cfg) where
  open F use {Block, block_eq, succs}

  pub Walk-Reach : {visited : List Block} {t b : Block} → Walk F visited t b → Reach F t b
  Walk-Reach (Walk.here e) = Reach.here e
  Walk-Reach (Walk.next m _ w) = Reach.next m (Walk-Reach w)

  -- A walk that avoids more blocks avoids fewer.
  pub Walk-forget :
      (a : Block) (visited : List Block) {t b : Block}
      → Walk F (insert block_eq a visited) t b
      → Walk F visited t b
  Walk-forget a visited (Walk.here e) = Walk.here e
  Walk-forget a visited (Walk.next {s} m fresh w) =
      Walk.next m (ground (arith, contains-insert block_eq a s visited)) (Walk-forget a visited w)

  pub Reach-Walk : {t b : Block} → Reach F t b → Walk F [] t b
  unfolding contains
  Reach-Walk (Reach.here e) = Walk.here e
  Reach-Walk (Reach.next m w) = Walk.next m refl (Reach-Walk w)

  -- The rest of a walk after its last visit to `b`.
  abbrev pub Exit : List Block → Block → Block → Type 0
  Exit visited t b =
      (s : Block) × Memᴰ s (succs b)
      × (contains block_eq (insert block_eq b visited) s ≡ false)
      × Walk F (insert block_eq b visited) t s

  Walk-Exit :
      (visited : List Block) {t : Block} (b : Block)
      → ¬ (b ≡ t)
      → Walk F (insert block_eq b visited) t b
      → Exit visited t b
  Walk-Exit visited b ne (Walk.here e) = absurd (ne e)
  Walk-Exit visited b ne (Walk.next {s} m fresh w) = (s, m, fresh, w)

  -- A walk to `t` either avoids `b` after its first block, or has a last exit from `b`.
  pub Walk-cases :
      (visited : List Block) {t x : Block} (b : Block)
      → ¬ (b ≡ t)
      → Walk F visited t x
      → Walk F (insert block_eq b visited) t x ⊎ Exit visited t b
  Walk-cases visited b ne (Walk.here e) = inl (Walk.here e)
  Walk-cases visited b ne (Walk.next {s} m fresh w) = elim (Walk-cases visited b ne w) [
    | inr exit ↦ inr exit
    | inl w' ↦ elim (block_eq s b) [
      | yes e ↦ inr (Walk-Exit visited b ne (subst (Walk F _ _) e w'))
      | no other ↦ inl (Walk.next m (ground (arith, contains-insert block_eq b s visited)) w')
    ]
  ]

  -- A walk between two different blocks has a last exit from its first block.
  pub last-Exit :
      (visited : List Block) {t : Block} (b : Block)
      → ¬ (b ≡ t)
      → Walk F visited t b
      → Exit visited t b
  last-Exit visited b ne w = elim (Walk-cases visited b ne w) [
    | inl w' ↦ Walk-Exit visited b ne w'
    | inr exit ↦ exit
  ]
