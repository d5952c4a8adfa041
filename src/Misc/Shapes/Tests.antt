-- ===== src/Misc/Shapes/Tests.antt =====
-- A heap with one object besides those of `test_rtti`, and lengths that are whole numbers.
use snippets_llvm.Base.{
  All, ◌↔◌, arith, ℕ, zero, suc, ◌*◌, Option, none, some, [], ◌∷◌, ◌≡◌, refl, codes, map,
}
use snippets_llvm.Outcome.{ok, fault, assertion}
use snippets_llvm.Errs.{text}
use snippets_llvm.Streams.{decimal, emit}
use snippets_llvm.Misc.Shapes.{
  Doubles, Shape, circle, Heap, test_rtti, print_shapes, print_shape, print_cast, delete_shapes,
  get_kind, is_square, is_circle, format_square, format_circle, compute_area,
}
use snippets_llvm.Misc.Shapes.Casts.{IsShown, Prints, print_shapes-Prints}
use snippets_llvm.Misc.Shapes.Frees.{IsFresh, test_rtti-frees}

abbrev pub whole : Doubles
whole = record {
  Double = ℕ;
  mul = λ a b. a * b;
  of_int = λ n. n;
  pi = 3;
  show = decimal;
  shape_line = λ p. ok (codes "SHAPE\n");
}

abbrev pub first_object : ℕ → Option (Shape whole)
first_object zero = some (circle 1)
first_object (suc p) = none

abbrev pub start : Heap whole
start = record { objects = first_object; next = 1 }

pub start-IsFresh : IsFresh whole start
start-IsFresh zero h = absurd (omega arith)
start-IsFresh (suc p) h = refl

-- A null pointer is passed over.
print_shapes-Prints_example :
    Prints whole start (none ∷ some 0 ∷ []) (print_shapes whole start (none ∷ some 0 ∷ []))
print_shapes-Prints_example =
    print_shapes-Prints whole start (none ∷ some 0 ∷ []) (tt, ((circle 1, refl), tt))

printed :
    (test_rtti whole (codes "f") start).out
    ≡ map text (
        codes "\n\n===f\n"
        ∷ codes "SHAPE\n"
        ∷ codes "Square(side=2) area=4\n"
        ∷ codes "SHAPE\n"
        ∷ codes "Circle(radius=4) area=48\n"
        ∷ [])
unfolding test_rtti print_shapes print_shape print_cast delete_shapes get_kind is_square is_circle
    format_square format_circle compute_area decimal emit
printed = refl

-- Where a pattern without an index fails an assertion, the tool ends at the first object.
abbrev strict : Doubles
strict = record {
  Double = ℕ;
  mul = λ a b. a * b;
  of_int = λ n. n;
  pi = 3;
  show = decimal;
  shape_line = λ p. fault assertion;
}

stopped :
    test_rtti strict (codes "f") (record { objects = λ p. none; next = 0 })
    ≡ record { out = text (codes "\n\n===f\n") ∷ []; end = fault assertion }
unfolding test_rtti print_shapes print_shape
stopped = refl

test_rtti-frees_example :
    ((h' : Heap whole) × ((test_rtti whole (codes "f") start).end ≡ ok (0, h'))
      × ((p : ℕ) → h'.objects p ≡ start.objects p))
    ↔ All (IsShown whole) (some 1 ∷ some 2 ∷ [])
test_rtti-frees_example = test_rtti-frees whole (codes "f") start start-IsFresh
