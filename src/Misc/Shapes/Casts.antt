-- ===== src/Misc/Shapes/Casts.antt =====
-- What `test_rtti` prints of shapes.
use snippets_llvm.Base.{
  ℕ, Option, none, some, List, [], ◌∷◌, ◌++◌, ◌≡◌, refl, Text, codes, flat_map, All, ap, inl, inr,
  ◌⊎◌,
}
use snippets_llvm.Outcome.{Outcome, ok, fault, Fault, Outcome-cases}
use snippets_llvm.Errs.{Run, Chunk, text}
use snippets_llvm.Misc.Shapes.{
  Doubles, Shape, square, circle, Heap, get_kind, is_square, is_circle, format_square,
  format_circle, load, print_cast, print_shape, print_shapes,
}

module _ (doubles : Doubles) where
  open doubles use {shape_line}

  -- A pointer is null, or an object is there.
  abbrev pub IsLive : Heap doubles → Option ℕ → Type 0
  IsLive h none = Unit
  IsLive h (some p) = (s : Shape doubles) × (h.objects p ≡ some s)

  -- The line of an object by its class.
  abbrev pub own_line : Shape doubles → Text
  own_line (square side_length) = format_square doubles side_length ++ codes "\n"
  own_line (circle radius) = format_circle doubles radius ++ codes "\n"

  -- What is written for a pointer, if formatting it yields some text.
  abbrev pub object_lines : Outcome Text → Option (Shape doubles) → List Chunk
  object_lines (ok line) (some s) = text line ∷ text (own_line s) ∷ []
  object_lines (ok line) none = []
  object_lines (fault e) o = []

  abbrev pub pointer_lines : Heap doubles → Option ℕ → List Chunk
  pointer_lines h none = []
  pointer_lines h (some p) = object_lines (shape_line p) (h.objects p)

  -- The text of a pointer can be made, or there is none to make.
  abbrev pub IsShown : Option ℕ → Type 0
  IsShown none = Unit
  IsShown (some p) = (line : Text) × (shape_line p ≡ ok line)

  -- The pointers that are left where the loop ends, and its end: all are done, or the text of one
  -- cannot be made.
  pub data Rest : List (Option ℕ) → Outcome (Unit {0}) → Type 0 where
    at_end : Rest [] (ok tt)
    at_fault :
        (p : ℕ) (ps : List (Option ℕ)) (e : Fault)
        → shape_line p ≡ fault e
        → Rest (some p ∷ ps) (fault e)

  -- A loop over pointers, as it runs.
  abbrev pub Prints : Heap doubles → List (Option ℕ) → Run (Unit {0}) → Type 0
  Prints h ps r =
      (before after : List (Option ℕ)) × (end : Outcome (Unit {0})) × (ps ≡ before ++ after)
      × All IsShown before
      × Rest after end
      × (r ≡ record { out = flat_map (pointer_lines h) before; end = end })

  -- The kind of an object tells its class, so that no cast is to another one.
  print_cast-own :
      (s : Shape doubles)
      → print_cast doubles s ≡ record { out = text (own_line s) ∷ []; end = ok tt }
  unfolding print_cast is_square is_circle get_kind
  print_cast-own (square side_length) = refl
  print_cast-own (circle radius) = refl

  print_shape-lines :
      (h : Heap doubles) (p : Option ℕ)
      → IsLive h p
      → IsShown p
      → print_shape doubles h p ≡ record { out = pointer_lines h p; end = ok tt }
  unfolding print_shape
  print_shape-lines h none l shown = refl
  print_shape-lines h (some p) (s, e) (line, f) = rw (load, f, e, print_cast-own s) refl

  print_shape-fault :
      (h : Heap doubles) (p : ℕ) (x : Fault)
      → shape_line p ≡ fault x
      → print_shape doubles h (some p) ≡ record { out = []; end = fault x }
  unfolding print_shape
  print_shape-fault h p x e = rw e refl

  IsShown-cases :
      (p : Option ℕ) → IsShown p ⊎ ((q : ℕ) × (e : Fault) × (p ≡ some q) × (shape_line q ≡ fault e))
  IsShown-cases none = inl tt
  IsShown-cases (some q) = elim (Outcome-cases (shape_line q)) [
    | inl shown ↦ inl shown
    | inr (e, f) ↦ inr (q, e, refl, f)
  ]

  pub print_shapes-shown :
      (h : Heap doubles) (ps : List (Option ℕ))
      → All (IsLive h) ps
      → All IsShown ps
      → print_shapes doubles h ps ≡ record { out = flat_map (pointer_lines h) ps; end = ok tt }
  unfolding print_shapes
  print_shapes-shown h [] l shown = refl
  print_shapes-shown h (p ∷ ps) l shown =
      rw (print_shape-lines h p l.0 shown.0, print_shapes-shown h ps l.1 shown.1) refl

  pub print_shapes-IsShown :
      (h : Heap doubles) (ps : List (Option ℕ))
      → All (IsLive h) ps
      → (print_shapes doubles h ps).end ≡ ok tt
      → All IsShown ps
  unfolding print_shapes
  print_shapes-IsShown h [] l k = tt
  print_shapes-IsShown h (p ∷ ps) l k = elim (IsShown-cases p) [
    | inl shown ↦ (shown, print_shapes-IsShown h ps l.1 (rw (print_shape-lines h p l.0 shown) at k))
    | inr (q, x, is, f) ↦ absurd (cc (rw (is, print_shape-fault h q x f) at k))
  ]

  -- If each pointer is null or an object is there, the loop casts no object to another class: it
  -- prints each object once, in order, by the class that it was created with, up to the end or up
  -- to the first pointer that `formatv` makes no text of, whose fault it ends by.
  pub print_shapes-Prints :
      (h : Heap doubles) (ps : List (Option ℕ))
      → All (IsLive h) ps
      → Prints h ps (print_shapes doubles h ps)
  unfolding print_shapes
  print_shapes-Prints h [] l = ([], [], ok tt, refl, tt, at_end, refl)
  print_shapes-Prints h (p ∷ ps) l = elim (IsShown-cases p) [
    | inl shown ↦
        let (before, after, end, e, all, rest, o) = print_shapes-Prints h ps l.1 in
        (
          p ∷ before,
          after,
          end,
          ap (λ qs. p ∷ qs) e,
          (shown, all),
          rest,
          rw (print_shape-lines h p l.0 shown, o) refl,
        )
    | inr (q, x, is, f) ↦ (
      [],
      p ∷ ps,
      fault x,
      refl,
      tt,
      rw is (at_fault q ps x f),
      rw (is, print_shape-fault h q x f) refl,
    )
  ]
