-- ===== src/Utils.antt =====
-- lib/mybase/LLUtils.cc and include/LLUtils.hh: queries about values, types, calls and blocks.
pub mod Functions
pub mod Blocks
pub mod Visits
pub mod Types
pub mod Exprs
pub mod Pointers
pub mod Manipulation
pub mod Tests
