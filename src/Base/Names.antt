-- ===== src/Base/Names.antt =====
-- Small stores for sample modules: functions from numbers that are changed at one of them, the first
-- of some numbers with a name, and a number that is not among some.
use mathlib.Core.List.{Memᴰ}
use mathlib.Core.List.Memᴰ
use mathlib.Core.Logic.{ite, if_pos, if_neg}
use native.Mathlib.Decide.{ℕ_discrete}
use snippets_llvm.Base.{
  ℕ, suc, ◌+◌, ◌<◌, ◌≡◌, ◌≢◌, inl, inr, refl, sym, ap, subst, ◌∙◌, arith, Option, none, some, List,
  [], ◌∷◌, Text, text_eq, text_eq_iff, Memᴰ-cons, if◌then◌else◌, Bool-cases,
}

abbrev pub update : {A : Type 0} → (ℕ → A) → ℕ → A → ℕ → A
update f k v c = ite (ℕ_discrete k c) v (f c)

-- The first of some functions with the name.
abbrev pub first_named : (ℕ → Text) → Text → List ℕ → Option ℕ
first_named names t [] = none
first_named names t (f ∷ fs) =
    let rest = first_named names t fs in if text_eq (names f) t then some f else rest

-- A number that is larger than all.
abbrev pub fresh : List ℕ → ℕ
fresh [] = 0
fresh (f ∷ fs) = suc f + fresh fs

pub update_self : {A : Type 0} (f : ℕ → A) (k : ℕ) (v : A) → update f k v k ≡ v
update_self f k v = if_pos (ℕ_discrete k k) refl _ _

pub update_other : {A : Type 0} (f : ℕ → A) (k c : ℕ) (v : A) → k ≢ c → update f k v c ≡ f c
update_other f k c v ne = if_neg (ℕ_discrete k c) ne _ _

pub first_named_found :
    (names : ℕ → Text) (t : Text) (fs : List ℕ) (f : ℕ)
    → first_named names t fs ≡ some f
    → Memᴰ f fs × (names f ≡ t)
first_named_found names t [] f h = cc
first_named_found names t (g ∷ fs) f h = elim (Bool-cases (text_eq (names g) t)) [
  | inl e ↦
      let same : g ≡ f = cc (rw e at h) in
      (Memᴰ.head (sym same), ap names (sym same) ∙ (text_eq_iff (names g) t).0 e)
  | inr e ↦ let (m, n) = first_named_found names t fs f (rw e at h) in (Memᴰ.tail m, n)
]

pub first_named_missing :
    (names : ℕ → Text) (t : Text) (fs : List ℕ) (f : ℕ)
    → first_named names t fs ≡ none
    → Memᴰ f fs
    → names f ≢ t
first_named_missing names t [] f h m p = Memᴰ.not-nil m
first_named_missing names t (g ∷ fs) f h m p = elim (Bool-cases (text_eq (names g) t)) [
  | inl e ↦ cc (rw e at h)
  | inr e ↦ elim ((Memᴰ-cons f g fs).0 m) [
    | inl q ↦ cc (e, (text_eq_iff (names g) t).1 (ap names (sym q) ∙ p))
    | inr later ↦ first_named_missing names t fs f (rw e at h) later p
  ]
]

pub fresh_above : (fs : List ℕ) (f : ℕ) → Memᴰ f fs → f < fresh fs
fresh_above [] f m = absurd (Memᴰ.not-nil m)
fresh_above (g ∷ fs) f m = elim ((Memᴰ-cons f g fs).0 m) [
  | inl e ↦ omega (arith, e)
  | inr later ↦ omega (arith, fresh_above fs f later)
]

pub fresh_new : (fs : List ℕ) → ¬ Memᴰ (fresh fs) fs
fresh_new fs m = absurd (omega (arith, fresh_above fs (fresh fs) m))

pub fresh_apart : (fs : List ℕ) (g : ℕ) → Memᴰ g fs → fresh fs ≢ g
fresh_apart fs g m e = fresh_new fs (subst (λ f. Memᴰ f fs) (sym e) m)
