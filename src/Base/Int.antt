-- ===== src/Base/Int.antt =====
-- Signed integers, under the library's names over the native numbers.
use Prim.Native.Nat.{ℕ, zero, suc, ◌<◌}
use mathlib.Core.Bool.{Bool}
use snippets_llvm.Base.Tests.{ltb}

-- `negsuc n` is -(n + 1).
pub data ℤ : Type 0 where
  pos : ℕ → ℤ
  negsuc : ℕ → ℤ

-- -n
abbrev pub neg : ℕ → ℤ
neg zero = pos 0
neg (suc n) = negsuc n

-- The integers of `w + 1` bits, `bound` being 2 ^ w.
abbrev pub InRange : ℕ → ℤ → Type 0
InRange bound (pos n) = n < bound
InRange bound (negsuc n) = n < bound

abbrev pub in_range : ℕ → ℤ → Bool
in_range bound (pos n) = ltb n bound
in_range bound (negsuc n) = ltb n bound
