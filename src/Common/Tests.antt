-- ===== src/Common/Tests.antt =====
-- A demangler that allocates at the address 7, and the uses of its result.
use snippets_llvm.Base.{ℕ, Option, none, some, [], ◌∷◌, ◌≡◌, refl, Text, codes}
use snippets_llvm.Outcome.{ok, fault, undefined}
use snippets_llvm.Common.{
  Heap, put, Demangler, Shared, delete_chars, cpp_demangle, copy, drop, use_all,
}
use snippets_llvm.Common.Frees.{IsDemangler, Demangled, failed, made, left, cpp_demangle_frees}

-- A text is there already.
abbrev memory : Heap
memory = put 3 (some (codes "kept")) (λ p. none)

abbrev allocate_at : Option Text → Heap → Option ℕ × Heap
allocate_at none h = (some 7, put 7 (some (codes "f()")) h)
allocate_at (some t) h = (none, h)

-- It fails if something stands at the address.
abbrev at_seven : Demangler
at_seven = record { cxa_demangle = λ name h. allocate_at (h 7) h }

allocate_at-Demangled : (h : Heap) (o : Option Text) → h 7 ≡ o → Demangled h (allocate_at o h)
allocate_at-Demangled h none e = made 7 (codes "f()") e
allocate_at-Demangled h (some t) e = failed

at_seven-IsDemangler : IsDemangler at_seven
at_seven-IsDemangler = record { allocates = λ name h. allocate_at-Demangled h (h 7) refl }

-- The text outlives the first owner, and is gone after the last one; a use after that is undefined.
freed_late :
    (use_all (copy ∷ drop ∷ []) (cpp_demangle at_seven (codes "_Z1fv") memory)
      ≡ ok (record { target = some 7; owners = 1 }, put 7 (some (codes "f()")) memory))
    × (use_all (drop ∷ drop ∷ []) (cpp_demangle at_seven (codes "_Z1fv") memory) ≡ fault undefined)
unfolding use_all cpp_demangle delete_chars
freed_late = (refl, refl)

cpp_demangle_frees_example :
    (s : Shared) × (h' : Heap) × (use_all
        (copy ∷ drop ∷ drop ∷ [])
        (cpp_demangle at_seven (codes "_Z1fv") memory)
      ≡ ok (s, h'))
    × (s.owners ≡ 0)
    × ((p : ℕ) → h' p ≡ left memory (cpp_demangle at_seven (codes "_Z1fv") memory).1 0 p)
cpp_demangle_frees_example =
    cpp_demangle_frees at_seven (codes "_Z1fv") memory (copy ∷ drop ∷ drop ∷ []) 0
      at_seven-IsDemangler refl
