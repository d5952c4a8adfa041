-- ===== src/Common/Frees.antt =====
-- That the text of `cppDemangle` is there while it has owners, and is freed once.
use snippets_llvm.Base.{ℕ, zero, suc, Option, none, some, List, [], ◌∷◌, Text, ◌≡◌, refl, arith}
use snippets_llvm.Outcome.{ok}
use snippets_llvm.Common.{
  Heap, put, Demangler, Shared, delete_chars, cpp_demangle, Use, copy, drop, use_all,
}

-- The documentation: null with nothing allocated, or a text at an address at which none was.
pub data Demangled (h : Heap) : Option ℕ × Heap → Type 0 where
  failed : Demangled h (none, h)
  made : (p : ℕ) (t : Text) → h p ≡ none → Demangled h (some p, put p (some t) h)

pub record IsDemangler (demangler : Demangler) : Type 0 where
  pub allocates : (name : Text) (h : Heap) → Demangled h (demangler.cxa_demangle name h)

-- How many owners some uses leave, if each of them has an owner to start from.
abbrev pub owners_by : Use → ℕ → ℕ
owners_by copy n = suc (suc n)
owners_by drop n = n

abbrev pub owners_after : List Use → ℕ → Option ℕ
owners_after [] n = some n
owners_after (u ∷ us) zero = none
owners_after (u ∷ us) (suc n) = owners_after us (owners_by u n)

-- What stands at each address while there are owners, and when there are none.
abbrev pub left : Heap → Heap → ℕ → Heap
left before after zero = before
left before after (suc n) = after

-- Deleting gives back the heap from before.
deleted :
    (h : Heap) (result : Option ℕ × Heap)
    → Demangled h result
    → (h' : Heap) × (delete_chars result.0 result.1 ≡ ok h') × ((p : ℕ) → h' p ≡ h p)
unfolding delete_chars
deleted h result failed = (h, refl, λ p. refl)
deleted h result (made p t e) =
    (put p none (put p (some t) h), ground arith, λ q. ground (arith, e))

module _ (before : Heap) (target : Option ℕ) (after : Heap)
    (d : Demangled before (target, after)) where
  use_all-left :
      (us : List Use) (n m : ℕ)
      → owners_after us (suc n) ≡ some m
      → (h' : Heap) × (use_all us (record { target = target; owners = suc n }, after)
          ≡ ok (record { target = target; owners = m }, h'))
        × ((p : ℕ) → h' p ≡ left before after m p)
  unfolding use_all
  use_all-left [] n m e = let same : suc n ≡ m = cc e in rw (← same) (after, refl, λ p. refl)
  use_all-left (copy ∷ us) n m e = use_all-left us (suc n) m e
  use_all-left (drop ∷ us) (suc n) m e = use_all-left us n m e
  use_all-left (drop ∷ []) zero m e =
      let same : 0 ≡ m = cc e in
      let (h', frees, back) = deleted before (target, after) d in
      rw (← same, frees) (h', refl, back)
  use_all-left (drop ∷ u ∷ us) zero m e = absurd (cc e)

-- If `__cxa_demangle` returns null or a text at a new address, then, however the result of
-- `cppDemangle` is copied and dropped: if each use has an owner, none of them is undefined, so
-- that nothing is freed twice. While there are owners the memory is as `cppDemangle` left it, and
-- once there are none it is as it was before.
pub cpp_demangle_frees :
    (demangler : Demangler) (abi_name : Text) (h : Heap) (us : List Use) (m : ℕ)
    → IsDemangler demangler
    → owners_after us 1 ≡ some m
    → (s : Shared) × (h' : Heap) × (use_all us (cpp_demangle demangler abi_name h) ≡ ok (s, h'))
      × (s.owners ≡ m)
      × ((p : ℕ) → h' p ≡ left h (cpp_demangle demangler abi_name h).1 m p)
unfolding cpp_demangle
cpp_demangle_frees demangler abi_name h us m laws e =
    let (h', runs, same) = use_all-left h _ _ (laws.allocates abi_name h) us 0 m e in
    (record { target = (demangler.cxa_demangle abi_name h).0; owners = m }, h', runs, refl, same)
