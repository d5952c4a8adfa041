-- ===== src/CountLi/Report.antt =====
-- What count-li prints of a function.
use mathlib.Core.List.{append-nil}
use snippets_llvm.Base.{
  not, Bool-cases, inl, inr, Bool, true, false, Option, none, some, List, [], ◌∷◌, ◌++◌, ◌≡◌, refl,
  codes, flat_map, if◌then◌else◌,
}
use snippets_llvm.Outcome.{ok}
use snippets_llvm.Errs.{◌>>◌, Chunk, text}
use snippets_llvm.Llvm.{Ir}
use snippets_llvm.CountLi.{LoopInfo, print_header, print_loop, print_blocks, run_on_function}

module _ (ir : Ir) (info : LoopInfo ir) where
  open ir use {Value, name, blocks}
  open info use {Loop, empty, loop_for, preheader}

  abbrev pub in_loop : Value → List Value → Bool
  in_loop f [] = false
  in_loop f (b ∷ bs) = elim (loop_for f b) [ none ↦ in_loop f bs | some li ↦ true ]

  -- The preheader of the innermost loop around a block, if there is such a loop and LLVM finds a
  -- preheader of it.
  abbrev pub preheader_of : Value → Value → Option Value
  preheader_of f b = elim (loop_for f b) [ none ↦ none | some li ↦ preheader li ]

  abbrev pub entry_lines : Option Value → List Chunk
  entry_lines none = []
  entry_lines (some p) =
      text (codes "\tpred:" ++ (name p ++ codes "\n"))
      ∷ text (codes "\tpreheader:" ++ (name p ++ codes "\n"))
      ∷ []

  abbrev pub block_lines : Value → Value → List Chunk
  block_lines f b = text (codes "BB: " ++ (name b ++ codes "\n")) ∷ entry_lines (preheader_of f b)

  print_header_twice :
      (o : Option Value)
      → (print_header ir info (codes "\tpred:") o >> print_header ir info (codes "\tpreheader:") o)
        ≡ record { out = entry_lines o; end = ok tt }
  print_header_twice none = refl
  print_header_twice (some p) = refl

  print_loop-lines :
      (o : Option Loop)
      → print_loop ir info o ≡ record {
        out = entry_lines (elim o [ none ↦ none | some li ↦ preheader li ]);
        end = ok tt;
      }
  print_loop-lines none = refl
  print_loop-lines (some li) = print_header_twice (preheader li)

  print_blocks-lines :
      (f : Value) (bs : List Value)
      → print_blocks ir info f bs ≡ record { out = flat_map (block_lines f) bs; end = ok tt }
  unfolding print_blocks
  print_blocks-lines f [] = refl
  print_blocks-lines f (b ∷ bs) = rw (print_loop-lines (loop_for f b), print_blocks-lines f bs) refl

  -- If the analysis of a function is empty exactly if none of its blocks is in a loop, the pass
  -- changes nothing, and prints one line if there is no loop, and otherwise each block in order,
  -- each followed twice by the preheader that LLVM finds of the innermost loop around it, if there
  -- are such a loop and a preheader.
  pub run_on_function-lists :
      (f : Value)
      → empty f ≡ not (in_loop f (blocks f))
      → run_on_function ir info f ≡ record {
        out =
            text (codes "\nFunc: " ++ (name f ++ codes "\n"))
            ∷ (if in_loop f (blocks f)
                then flat_map (block_lines f) (blocks f)
                else text (codes "no loop inside\n") ∷ []);
        end = ok false;
      }
  unfolding run_on_function
  run_on_function-lists f h = elim (Bool-cases (in_loop f (blocks f))) [
    | inl e ↦
        rw (h, e, print_blocks-lines f (blocks f))
          (rw (append-nil (flat_map (block_lines f) (blocks f))) refl)
    | inr e ↦ rw (h, e) refl
  ]
