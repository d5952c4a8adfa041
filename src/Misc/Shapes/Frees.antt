-- ===== src/Misc/Shapes/Frees.antt =====
-- That `test_rtti` frees what it creates.
use snippets_llvm.Base.{
  ℕ, suc, ◌≤◌, All, Option, none, some, List, [], ◌∷◌, ◌≡◌, refl, arith, Text, ◌↔◌,
}
use snippets_llvm.Outcome.{ok}
use snippets_llvm.Errs.Ends.{first_returns}
use snippets_llvm.Misc.Shapes.{
  Doubles, Shape, square, circle, Heap, put, new_shape, delete_shape, delete_shapes, test_rtti,
}
use snippets_llvm.Misc.Shapes.Casts.{IsLive, IsShown, print_shapes-shown, print_shapes-IsShown}

module _ (doubles : Doubles) where
  open doubles use {of_int}

  -- Nothing is at the addresses that are given out later.
  abbrev pub IsFresh : Heap doubles → Type 0
  IsFresh h = (p : ℕ) → h.next ≤ p → h.objects p ≡ none

  -- The heap after the two objects have been created, and after they have been deleted.
  abbrev created : Heap doubles → Heap doubles
  created h = (new_shape doubles (circle (of_int 4)) (new_shape doubles (square (of_int 2)) h).1).1

  abbrev freed : Heap doubles → Heap doubles
  freed h = record {
    objects = put doubles (suc h.next) none (put doubles h.next none (created h).objects);
    next = (created h).next;
  }

  abbrev both : Heap doubles → List (Option ℕ)
  both h = some h.next ∷ some (suc h.next) ∷ []

  created-first : (h : Heap doubles) → (created h).objects h.next ≡ some (square (of_int 2))
  created-first h = ground arith

  created-second : (h : Heap doubles) → (created h).objects (suc h.next) ≡ some (circle (of_int 4))
  created-second h = ground arith

  kept-second :
      (h : Heap doubles)
      → put doubles h.next none (created h).objects (suc h.next) ≡ some (circle (of_int 4))
  kept-second h = ground arith

  delete_one :
      (p : ℕ) (h : Heap doubles) (s : Shape doubles)
      → h.objects p ≡ some s
      → delete_shape doubles (some p) h
        ≡ ok (record { objects = put doubles p none h.objects; next = h.next })
  delete_one p h s e = rw (e, delete_shape) refl

  delete_both :
      (h : Heap doubles)
      → delete_shapes doubles (both h) (created h) ≡ record { out = []; end = ok (freed h) }
  unfolding delete_shapes
  delete_both h = ground (arith, delete_one h.next (created h) _ (created-first h))

  freed-same : (h : Heap doubles) → IsFresh h → (p : ℕ) → (freed h).objects p ≡ h.objects p
  freed-same h fresh p =
      ground (arith, fresh h.next (omega arith), fresh (suc h.next) (omega arith))

  created-IsLive : (h : Heap doubles) → All (IsLive doubles (created h)) (both h)
  created-IsLive h =
      ((square (of_int 2), created-first h), ((circle (of_int 4), created-second h), tt))

  -- Where it returns, both pointers have been shown.
  pub test_rtti-IsShown :
      (pretty_function : Text) (h : Heap doubles) (r : ℕ × Heap doubles)
      → (test_rtti doubles pretty_function h).end ≡ ok r
      → All (IsShown doubles) (both h)
  unfolding test_rtti
  test_rtti-IsShown pretty_function h r e =
      print_shapes-IsShown doubles (created h) (both h) (created-IsLive h) (first_returns _ _ r e)

  -- On a heap with nothing at the addresses to come, `test_rtti` returns 0 and leaves at each
  -- address what was there before, so it frees what it creates, once, exactly if `formatv` makes a
  -- text of each of the two pointers by its pattern without an index.
  pub test_rtti-frees :
      (pretty_function : Text) (h : Heap doubles)
      → IsFresh h
      → ((h' : Heap doubles) × ((test_rtti doubles pretty_function h).end ≡ ok (0, h'))
          × ((p : ℕ) → h'.objects p ≡ h.objects p))
        ↔ All (IsShown doubles) (some h.next ∷ some (suc h.next) ∷ [])
  unfolding test_rtti
  test_rtti-frees pretty_function h fresh = (
    λ (h', e, same). test_rtti-IsShown pretty_function h (0, h') e,
    λ shown. (
      freed h,
      rw (print_shapes-shown doubles (created h) (both h) (created-IsLive h) shown, delete_both h)
          refl,
      freed-same h fresh,
    ),
  )
