-- ===== src/Dump/InstType.antt =====
-- lib/mybase/LLDump.cc, `InstTypeStr`: the class name inside the text `isa<Name>(I)`.
pub mod Extract
use mathlib.Core.Option
use snippets_llvm.Base.{
  ℕ, zero, suc, ◌+◌, ◌-◌, ◌%◌, ◌^◌, Bool, true, false, ◌&&◌, Option, none, some, List, [], ◌∷◌,
  Text, codes, length, take, drop, ltb, ◌==◌, ◌≡◌, refl, if◌then◌else◌,
}
use snippets_llvm.Outcome.{Outcome, ok, fault, uncaught}

-- `size_t`
abbrev pub size_mod : ℕ
size_mod = 2 ^ 64

abbrev pub npos : ℕ
npos = size_mod - 1

unfoldable pub is_prefix : Text → Text → Bool
is_prefix [] s = true
is_prefix (c ∷ p) [] = false
is_prefix (c ∷ p) (d ∷ s) = c == d && is_prefix p s

-- `std::string::find` of a text that is not empty
unfoldable pub find : Text → Text → Option ℕ
unfolding is_prefix
find p [] = none
find p (c ∷ s) =
    let later = Option.map suc (find p s) in if is_prefix p (c ∷ s) then some 0 else later

abbrev pub index : Option ℕ → ℕ
index none = npos
index (some i) = i

-- `std::string::substr`, which throws `out_of_range` for a position behind the end
unfoldable pub substr : Text → ℕ → ℕ → Outcome Text
substr s start count =
    if ltb (length s) start then fault uncaught else ok (take count (drop start s))

unfoldable pub inst_type_str : Text → Outcome Text
unfolding find substr
inst_type_str s =
    let start = (index (find (codes "isa<") s) + 4) % size_mod in
    let stop = index (find (codes ">") s) in substr s start ((stop + size_mod - start) % size_mod)
