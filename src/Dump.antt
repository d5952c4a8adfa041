-- ===== src/Dump.antt =====
-- lib/mybase/LLDump.cc and include/LLDump.hh: what the repository prints of LLVM's representation.
pub mod Names
pub mod InstType
pub mod Printing
pub mod InstKind
pub mod Linkage
pub mod Tests
