-- ===== src/Misc.antt =====
-- tools/misc: the tests of Misc.cc, each over what it uses of LLVM, its `main`, and the classes of
-- Person.hh and Shape.hh.
pub mod Ints
pub mod Switch
pub mod People
pub mod Shapes
pub mod StringRefs
pub mod Digests
pub mod Formats
pub mod Arrays
pub mod Twines
pub mod Documents
pub mod Main
