-- ===== src/Misc/Shapes.antt =====
-- tools/misc/Shape.hh, and `test_rtti` of tools/misc/Misc.cc.
pub mod Casts
pub mod Frees
pub mod Tests
use snippets_llvm.Base.{
  ℕ, suc, Bool, true, false, Option, none, some, List, [], ◌∷◌, ◌++◌, Text, codes, ◌==◌,
  if◌then◌else◌,
}
use snippets_llvm.Outcome.{Outcome, ok, fault, undefined}
use snippets_llvm.Errs.{Run, lift, pure, write, ◌>>=◌, ◌>>◌}

pub data ShapeKind : Type 0 where
  sk_square sk_circle : ShapeKind

-- `double` with `*`, what an `int` literal becomes and 3.1415926; how one is printed; and what
-- `formatv("SHAPE: {}\n", p)` makes of a pointer, where LLVM may fail an assertion, as the pattern
-- has no index.
pub record Doubles : Type 1 where
  pub Double : Type 0
  pub mul : Double → Double → Double
  pub of_int : ℕ → Double
  pub pi : Double
  pub show : Double → Text
  pub shape_line : ℕ → Outcome Text

module _ (doubles : Doubles) where
  open doubles use {Double, mul, of_int, pi, show, shape_line}

  -- An object of one of the two classes, with `sideLength_` and `radius_`.
  pub data Shape : Type 0 where
    square : Double → Shape
    circle : Double → Shape

  -- What the constructors set `kind_` to.
  unfoldable pub get_kind : Shape → ShapeKind
  get_kind (square side_length) = sk_square
  get_kind (circle radius) = sk_circle

  unfoldable pub compute_area : Shape → Double
  compute_area (square side_length) = mul side_length side_length
  compute_area (circle radius) = mul (mul pi radius) radius

  -- `Square::classof`, `Circle::classof`
  unfoldable pub is_square : Shape → Bool
  is_square s = elim (get_kind s) [ sk_square ↦ true | sk_circle ↦ false ]

  unfoldable pub is_circle : Shape → Bool
  is_circle s = elim (get_kind s) [ sk_square ↦ false | sk_circle ↦ true ]

  -- `static_cast`, which is undefined for an object of another class
  abbrev pub static_square : Shape → Outcome Double
  static_square (square side_length) = ok side_length
  static_square (circle radius) = fault undefined

  abbrev pub static_circle : Shape → Outcome Double
  static_circle (square side_length) = fault undefined
  static_circle (circle radius) = ok radius

  unfoldable pub format_square : Double → Text
  format_square side_length =
      codes "Square(side="
      ++ (show side_length ++ (codes ") area=" ++ show (compute_area (square side_length))))

  unfoldable pub format_circle : Double → Text
  format_circle radius =
      codes "Circle(radius="
      ++ (show radius ++ (codes ") area=" ++ show (compute_area (circle radius))))

  -- `<<` to a `std::ostream`
  unfoldable pub stream_square : Double → Text
  stream_square side_length =
      codes "square, sideLength_="
      ++ (show side_length ++ (codes ", area=" ++ show (compute_area (square side_length))))

  unfoldable pub stream_circle : Double → Text
  stream_circle radius =
      codes "circle, radius_="
      ++ (show radius ++ (codes ", area=" ++ show (compute_area (circle radius))))

  -- The objects that are there, by address, and the address of the next one.
  pub record Heap : Type 0 where
    pub objects : ℕ → Option Shape
    pub next : ℕ

  abbrev pub put : ℕ → Option Shape → (ℕ → Option Shape) → ℕ → Option Shape
  put p o objects q = if q == p then o else objects q

  abbrev pub new_shape : Shape → Heap → ℕ × Heap
  new_shape s h = (h.next, record { objects = put h.next (some s) h.objects; next = suc h.next })

  abbrev pub load : ℕ → Heap → Outcome Shape
  load p h = elim (h.objects p) [ none ↦ fault undefined | some s ↦ ok s ]

  abbrev pub delete_shape : Option ℕ → Heap → Outcome Heap
  delete_shape none h = ok h
  delete_shape (some p) h = elim (h.objects p) [
    | none ↦ fault undefined
    | some s ↦ ok (record { objects = put p none h.objects; next = h.next })
  ]

  -- The two casts, by the first that the object's kind allows.
  unfoldable pub print_cast : Shape → Run (Unit {0})
  print_cast s =
      if is_square s
      then (do
        side_length ← lift (static_square s)
        write (format_square side_length ++ codes "\n"))
      else if is_circle s
      then (do radius ← lift (static_circle s); write (format_circle radius ++ codes "\n"))
      else pure tt

  -- The body of the first loop; a null pointer is passed over.
  unfoldable pub print_shape : Heap → Option ℕ → Run (Unit {0})
  print_shape h none = pure tt
  print_shape h (some p) = do
    line ← lift (shape_line p)
    write line
    s ← lift (load p h)
    print_cast s

  unfoldable pub print_shapes : Heap → List (Option ℕ) → Run (Unit {0})
  print_shapes h [] = pure tt
  print_shapes h (p ∷ ps) = do print_shape h p; print_shapes h ps

  unfoldable pub delete_shapes : List (Option ℕ) → Heap → Run Heap
  delete_shapes [] h = pure h
  delete_shapes (p ∷ ps) h = do h' ← lift (delete_shape p h); delete_shapes ps h'

  -- `__PRETTY_FUNCTION__` is the compiler's.
  unfoldable pub test_rtti : Text → Heap → Run (ℕ × Heap)
  test_rtti pretty_function h =
      let (p, h1) = new_shape (square (of_int 2)) h in
      let (q, h2) = new_shape (circle (of_int 4)) h1 in
      let shapes = some p ∷ some q ∷ [] in
      do
        write (codes "\n\n===" ++ (pretty_function ++ codes "\n"))
        print_shapes h2 shapes
        h3 ← delete_shapes shapes h2
        pure (0, h3)
