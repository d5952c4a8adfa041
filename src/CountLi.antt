-- ===== src/CountLi.antt =====
-- lib/snippets/CountLI.cc: the pass count-li, which prints the preheaders of a
-- function's loops.
pub mod Report
pub mod Tests
use snippets_llvm.Base.{
  Bool, true, false, Option, none, some, List, [], ◌∷◌, ◌++◌, Text, codes, if◌then◌else◌,
}
use snippets_llvm.Errs.{Run, pure, write, ◌>>=◌, ◌>>◌}
use snippets_llvm.Llvm.{Ir}

-- The analysis that the pass asks for, of a function: `LoopInfo::empty`, `getLoopFor` and
-- `Loop::getLoopPreheader`, where a null pointer is `none`.
pub record LoopInfo (ir : Ir) : Type 1 where
  pub Loop : Type 0
  pub empty : ir.Value → Bool
  pub loop_for : ir.Value → ir.Value → Option Loop
  pub preheader : Loop → Option ir.Value

module _ (ir : Ir) (info : LoopInfo ir) where
  open ir use {Value, name, blocks}
  open info use {Loop, empty, loop_for, preheader}

  abbrev pub print_header : Text → Option Value → Run (Unit {0})
  print_header tag none = pure tt
  print_header tag (some b) = write (tag ++ (name b ++ codes "\n"))

  abbrev pub print_loop : Option Loop → Run (Unit {0})
  print_loop none = pure tt
  print_loop (some li) = do
    print_header (codes "\tpred:") (preheader li)
    print_header (codes "\tpreheader:") (preheader li)

  unfoldable pub print_blocks : Value → List Value → Run (Unit {0})
  print_blocks f [] = pure tt
  print_blocks f (b ∷ bs) = do
    write (codes "BB: " ++ (name b ++ codes "\n"))
    print_loop (loop_for f b)
    print_blocks f bs

  unfoldable pub run_on_function : Value → Run Bool
  run_on_function f = do
    write (codes "\nFunc: " ++ (name f ++ codes "\n"))
    if empty f then write (codes "no loop inside\n") else print_blocks f (blocks f)
    pure false
