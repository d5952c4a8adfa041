-- ===== src/Base/Lists.antt =====
-- Lists measured and indexed by native numbers, and membership tests over decidable equality.
use Prim.Native.Nat.{ℕ, zero, suc}
use mathlib.Core.Path.{◌≡◌, refl}
use mathlib.Core.Bool.{Bool, true, false}
use mathlib.Core.Logic.{◌≢◌, inl, inr, ◌⊎◌, ◌↔◌, ⊎_elim, ite}
use mathlib.Core.List.{List, [], ◌∷◌, ◌++◌, Memᴰ}
use mathlib.Core.List.Memᴰ
use mathlib.Core.Option.{Option, none, some}
use native.Mathlib.Omega.{arith}
use snippets_llvm.Base.Tests.{if◌then◌else◌, Bool-cases}

module _ {ℓ} {A : Type ℓ} where
  abbrev pub length : List A → ℕ
  length [] = 0
  length (x ∷ xs) = suc (length xs)

  abbrev pub head? : List A → Option A
  head? [] = none
  head? (x ∷ xs) = some x

  abbrev pub drop : ℕ → List A → List A
  drop zero xs = xs
  drop (suc n) [] = []
  drop (suc n) (x ∷ xs) = drop n xs

  abbrev pub take : ℕ → List A → List A
  take zero xs = []
  take (suc n) [] = []
  take (suc n) (x ∷ xs) = x ∷ take n xs

  abbrev pub replicate : ℕ → A → List A
  replicate zero a = []
  replicate (suc n) a = a ∷ replicate n a

  abbrev pub get_elem? : List A → ℕ → Option A
  get_elem? [] i = none
  get_elem? (x ∷ xs) zero = some x
  get_elem? (x ∷ xs) (suc i) = get_elem? xs i

  abbrev pub All {κ} : (A → Type κ) → List A → Type κ
  All P [] = Unit
  All P (x ∷ xs) = P x × All P xs

  -- The elements that pass a test, in order.
  abbrev pub keep : (A → Bool) → List A → List A
  keep p [] = []
  keep p (x ∷ xs) = let rest = keep p xs in if p x then x ∷ rest else rest

  pub keep-append : (p : A → Bool) (xs ys : List A) → keep p (xs ++ ys) ≡ keep p xs ++ keep p ys
  keep-append p [] ys = refl
  keep-append p (x ∷ xs) ys = ground (arith, keep-append p xs ys)

  abbrev pub flat_map {κ} : {B : Type κ} → (A → List B) → List A → List B
  flat_map f [] = []
  flat_map f (x ∷ xs) = f x ++ flat_map f xs

  pub Memᴰ-cons : (a x : A) (xs : List A) → Memᴰ a (x ∷ xs) ↔ ((a ≡ x) ⊎ Memᴰ a xs)
  Memᴰ-cons a x xs = (Memᴰ.cases_cons, ⊎_elim Memᴰ.head Memᴰ.tail)

module _ {ℓ} {A : Type ℓ} (eq : Discrete A) where
  unfoldable pub contains : List A → A → Bool
  contains [] a = false
  contains (x ∷ xs) a = ite (eq a x) true (contains xs a)

  -- `std::set::insert`: an element that is there already is not added again.
  unfoldable pub insert : A → List A → List A
  unfolding contains
  insert a xs = if contains xs a then xs else a ∷ xs

  pub contains-insert :
      (a b : A) (xs : List A) → contains (insert a xs) b ≡ ite (eq b a) true (contains xs b)
  unfolding insert contains
  contains-insert a b xs = ground (arith, Bool-cases (contains xs a))

  pub contains_of_mem : (a : A) (xs : List A) → Memᴰ a xs → contains xs a ≡ true
  unfolding contains
  contains_of_mem a [] m = elim m [ ]
  contains_of_mem a (x ∷ xs) m = elim ((Memᴰ-cons a x xs).0 m) [
    | inl e ↦ ground (arith, eq a x)
    | inr later ↦ ground (arith, eq a x, contains_of_mem a xs later)
  ]

pub append-nonempty {ℓ} : {A : Type ℓ} (xs : List A) (t : A) → xs ++ (t ∷ []) ≢ []
append-nonempty [] t h = cc
append-nonempty (x ∷ xs) t h = cc

-- A list tells what it ends with, and what stands before.
pub append-last {ℓ} :
    {A : Type ℓ} (xs ys : List A) (t u : A) → xs ++ (t ∷ []) ≡ ys ++ (u ∷ []) → (xs ≡ ys) × (t ≡ u)
append-last [] [] t u h = (refl, cc)
append-last [] (y ∷ ys) t u h = absurd (append-nonempty ys u (cc h))
append-last (x ∷ xs) [] t u h = absurd (append-nonempty xs t (cc h))
append-last (x ∷ xs) (y ∷ ys) t u h =
    let (rest, last) = append-last xs ys t u (cc h) in (cc (h, rest), last)
