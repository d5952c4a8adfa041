-- ===== src/Common.antt =====
-- lib/mybase/Common.cc, `cppDemangle`, with the memory it hands over to a `std::shared_ptr`.
pub mod Frees
pub mod Tests
use snippets_llvm.Base.{ℕ, zero, suc, Option, none, some, List, [], ◌∷◌, Text, ◌==◌, if◌then◌else◌}
use snippets_llvm.Outcome.{Outcome, ok, fault, undefined, ◌>>=◌}

-- The texts that `malloc` has given out and that are not freed, by address.
abbrev pub Heap : Type 0
Heap = ℕ → Option Text

abbrev pub put : ℕ → Option Text → Heap → Heap
put p t h q = if q == p then t else h q

-- `std::free`, which is undefined for what was not given out or is freed already
abbrev pub free : ℕ → Heap → Outcome Heap
free p h = elim (h p) [ none ↦ fault undefined | some t ↦ ok (put p none h) ]

-- `abi::__cxa_demangle`, which allocates the text that it returns, or returns null
pub record Demangler : Type 0 where
  pub cxa_demangle : Text → Heap → Option ℕ × Heap

-- `std::shared_ptr<char>` with the deleter below: the pointer, and how many owners it has.
pub record Shared : Type 0 where
  pub target : Option ℕ
  pub owners : ℕ

-- The deleter
unfoldable pub delete_chars : Option ℕ → Heap → Outcome Heap
delete_chars none h = ok h
delete_chars (some mem) h = free mem h

unfoldable pub cpp_demangle : Demangler → Text → Heap → Shared × Heap
cpp_demangle demangler abi_name h =
    let (ret, h') = demangler.cxa_demangle abi_name h in (record { target = ret; owners = 1 }, h')

-- What callers do with the result: an owner more, or one less. Both take an owner. The deleter runs
-- when the last one goes.
pub data Use : Type 0 where
  copy drop : Use

abbrev pub use_by_owner : Use → Option ℕ → ℕ → Heap → Outcome (Shared × Heap)
use_by_owner copy target n h = ok (record { target = target; owners = suc (suc n) }, h)
use_by_owner drop target (suc n) h = ok (record { target = target; owners = suc n }, h)
use_by_owner drop target zero h = do
  h' ← delete_chars target h
  ok (record { target = target; owners = 0 }, h')

abbrev pub use_shared : Use → Option ℕ → ℕ → Heap → Outcome (Shared × Heap)
use_shared u target zero h = fault undefined
use_shared u target (suc n) h = use_by_owner u target n h

unfoldable pub use_all : List Use → Shared × Heap → Outcome (Shared × Heap)
use_all [] (s, h) = ok (s, h)
use_all (u ∷ us) (s, h) = do after ← use_shared u s.target s.owners h; use_all us after
