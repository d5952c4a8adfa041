-- ===== src/Misc/Ints/Accepts.antt =====
-- Which texts `to_int` accepts, and as what.
use snippets_llvm.Base.{Bool, true, false, ◌≡◌, ◌↔◌, Text, ap}
use snippets_llvm.Base.Int.{ℤ, InRange}
use snippets_llvm.Streams.{int_bound, Extracted, failed, got, extract_int, show_int}
use snippets_llvm.Streams.Scans.{Spells}
use snippets_llvm.Streams.Reads.{extract_int_iff}
use snippets_llvm.Streams.Prints.{extract_int-show_int}
use snippets_llvm.Misc.Ints.{Errors, value, of_extracted, to_int}

module _ (api : Errors) where
  accepted_whole :
      (s : Text) (x : Extracted) (z : ℤ) → of_extracted api s true x ≡ value z → x ≡ got z true
  accepted_whole s failed z h = cc
  accepted_whole s (got y true) z h = cc
  accepted_whole s (got y false) z h = cc

  accepted :
      (s : Text) (m : Bool) (x : Extracted) (z : ℤ)
      → of_extracted api s m x ≡ value z
      → (eof : Bool) × (x ≡ got z eof)
  accepted s m failed z h = cc
  accepted s true (got y true) z h = (true, cc)
  accepted s true (got y false) z h = cc
  accepted s false (got y eof) z h = (eof, cc)

  -- With `MatchWord` a text is accepted as a number exactly if it is white space, a sign or none, and
  -- digits that spell the number, and the number is an `int`.
  pub to_int_iff :
      (s : Text) (z : ℤ) → (to_int api s true ≡ value z) ↔ (Spells s z × InRange int_bound z)
  unfolding to_int
  to_int_iff s z = (
    λ h. (extract_int_iff s z).0 (accepted_whole s (extract_int s) z h),
    λ p. ap (of_extracted api s true) ((extract_int_iff s z).1 p),
  )

  -- What is printed of an `int` is accepted as this `int`, with `MatchWord` or without.
  pub to_int-show_int :
      (z : ℤ) (m : Bool) → InRange int_bound z → to_int api (show_int z) m ≡ value z
  unfolding to_int
  to_int-show_int z true h = ap (of_extracted api (show_int z) true) (extract_int-show_int z h)
  to_int-show_int z false h = ap (of_extracted api (show_int z) false) (extract_int-show_int z h)
