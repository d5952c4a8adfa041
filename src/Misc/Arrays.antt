-- ===== src/Misc/Arrays.antt =====
-- tools/misc/Misc.cc, `test_ArrayRef` and `test_PackedVector`.
use Prim.Native.Nat.{bit_or}
use snippets_llvm.Base.{ℕ, List, [], ◌∷◌, ◌++◌, ◌≡◌, refl, Text, codes, map, length}
use snippets_llvm.Outcome.{ok}
use snippets_llvm.Errs.{Run, text, write, pure, ◌>>◌}
use snippets_llvm.Streams.{decimal, emit}

-- `llvm::ArrayRef<int>` of an array, of a vector and of an initialiser list
pub record ArrayRefs : Type 1 where
  pub ArrayRef : Type 0
  pub of_array : List ℕ → ArrayRef
  pub of_vector : List ℕ → ArrayRef
  pub of_initializer : List ℕ → ArrayRef
  pub size : ArrayRef → ℕ

pub record IsSized (refs : ArrayRefs) : Type 0 where
  pub size-of_array : (xs : List ℕ) → refs.size (refs.of_array xs) ≡ length xs
  pub size-of_vector : (xs : List ℕ) → refs.size (refs.of_vector xs) ≡ length xs
  pub size-of_initializer : (xs : List ℕ) → refs.size (refs.of_initializer xs) ≡ length xs

module _ (refs : ArrayRefs) where
  open refs use {of_array, of_vector, of_initializer, size}

  unfoldable pub write_size : ℕ → Run (Unit {0})
  write_size n = write (decimal n ++ codes "\n")

  -- `__PRETTY_FUNCTION__` is the compiler's.
  unfoldable pub test_array_ref : Text → Run (Unit {0})
  test_array_ref pretty_function =
      let v = 1 ∷ 2 ∷ 3 ∷ [] in
      let a = 1 ∷ 2 ∷ 3 ∷ 4 ∷ [] in
      do
        write (codes "\n\n===" ++ (pretty_function ++ codes "\n"))
        write_size (size (of_array a))
        write_size (size (of_vector v))
        write_size (size (of_initializer (1 ∷ 2 ∷ 3 ∷ 4 ∷ [])))

  pub test_array_ref_lines :
      (pretty_function : Text)
      → IsSized refs
      → test_array_ref pretty_function ≡ record {
        out = map text (
            (codes "\n\n===" ++ (pretty_function ++ codes "\n"))
            ∷ codes "4\n"
            ∷ codes "3\n"
            ∷ codes "4\n"
            ∷ []);
        end = ok tt;
      }
  unfolding test_array_ref write_size decimal emit
  test_array_ref_lines pretty_function sized =
      rw
        (
          sized.size-of_array (1 ∷ 2 ∷ 3 ∷ 4 ∷ []),
          sized.size-of_vector (1 ∷ 2 ∷ 3 ∷ []),
          sized.size-of_initializer (1 ∷ 2 ∷ 3 ∷ 4 ∷ []),
        )
        refl

pub data State : Type 0 where
  none first second both : State

unfoldable pub state_value : State → ℕ
state_value none = 0x0
state_value first = 0x1
state_value second = 0x2
state_value both = 0x3

-- `llvm::PackedVector<State, 2>` with `push_back` and `|=`
pub record PackedVectors : Type 1 where
  pub PackedVector : Type 0
  pub empty : PackedVector
  pub push_back : ℕ → PackedVector → PackedVector
  pub or_assign : PackedVector → PackedVector → PackedVector

-- Two lists of the same length, element by element.
abbrev pub zip_or : List ℕ → List ℕ → List ℕ
zip_or [] ys = []
zip_or (x ∷ xs) [] = []
zip_or (x ∷ xs) (y ∷ ys) = bit_or x y ∷ zip_or xs ys

pub record IsPacked (vectors : PackedVectors) : Type 0 where
  pub elements : vectors.PackedVector → List ℕ
  pub elements_empty : elements vectors.empty ≡ []
  pub elements_push :
      (x : ℕ) (v : vectors.PackedVector) → elements (vectors.push_back x v) ≡ elements v ++ (x ∷ [])
  pub elements_or :
      (v w : vectors.PackedVector)
      → length (elements v) ≡ length (elements w)
      → elements (vectors.or_assign v w) ≡ zip_or (elements v) (elements w)

module _ (vectors : PackedVectors) where
  open vectors use {PackedVector, empty, push_back, or_assign}

  -- `vec1` at the end
  unfoldable pub packed : PackedVector
  packed =
      let vec1 = push_back (state_value first) empty in
      let vec2 = push_back (state_value second) empty in or_assign vec1 vec2

  -- `__PRETTY_FUNCTION__` is the compiler's.
  unfoldable pub test_packed_vector : Text → Run PackedVector
  test_packed_vector pretty_function = do
    write (codes "\n\n===" ++ (pretty_function ++ codes "\n"))
    pure packed

  pub test_packed_vector_returns :
      (pretty_function : Text) → (test_packed_vector pretty_function).end ≡ ok packed
  unfolding test_packed_vector
  test_packed_vector_returns pretty_function = refl

  -- The vector of one state first or with the vector of one state second is that of the state both.
  pub packed-both : (laws : IsPacked vectors) → laws.elements packed ≡ state_value both ∷ []
  unfolding packed state_value
  packed-both laws =
      let one : (x : ℕ) → laws.elements (push_back x empty) ≡ x ∷ [] =
        λ x. rw (laws.elements_push x empty, laws.elements_empty) refl in
      let v = push_back 1 empty in
      let w = push_back 2 empty in
      let same : length (laws.elements v) ≡ length (laws.elements w) = rw (one 1, one 2) refl in
      rw (laws.elements_or v w same, one 1, one 2) refl
