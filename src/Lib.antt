-- ===== src/Lib.antt =====
-- A verification library for snippets_llvm: analysis passes over LLVM's intermediate
-- representation and the helpers that they share.
--
-- The program has a library of helpers (lib/mybase: queries on values and types, printers), passes
-- that are loaded into `opt` (lib/snippets, lib/templates) and two tools (tools/dump, tools/misc).
-- LLVM itself is not part of the repository. It is the record `Ir` of Llvm.antt, a parameter of all
-- that stands on it: values and types by address, and a field for each method that is called. What
-- LLVM's documentation says of these methods is in Llvm/Laws: the class hierarchy (`IsClassTree`,
-- over the table `base` of Llvm/Classes), the verifier's typing rules (`IsTyped`), that pointers are
-- not opaque (`HasPointees`), that types and constant expressions nest (`IsNested`, `IsExprNested`),
-- where instructions stand (`IsPlaced`), what a call calls (`IsCalling`) and that an instruction's
-- value id is its opcode's (`HasOpcodes`). Llvm/Sample is a small module that meets all of them, on
-- which the theorems are applied.
--
-- Files and what they model:
--   Base, Outcome, Errs   shared: lists, texts and integers; how C++ code ends (`Outcome`: a failed
--                         assertion, a null pointer, `report_fatal_error`, `abort`, `exit`, an
--                         exception and undefined behaviour are faults); `llvm::errs()` as the
--                         list of what is written (`Run`), with `WITH_COLOR` of
--                         include/LLDump.hh. Assertions are taken to be enabled.
--   CountBb               lib/snippets/CountExecBB.cc over the record `Editor`, which stands for what
--                         LLVM offers to read and change a module; its laws are `IsEditor` of
--                         CountBb/Visits and `IsSetupEditor` of CountBb/Setup, which
--                         CountBb/Setup/Sample meets. `Machine` of CountBb/Runs is what LLVM's
--                         language reference says of running the instructions that count.
--                         `geti8StrVal` of lib/mybase/LLUtils.cc stands here too.
--   DumpTool, DumpTool/Module
--                         tools/dump/Dump.cc: `runOnBasicBlock`, what it calls and
--                         `printInstArgType`; what is printed of functions and modules, and `main`.
--                         What the tool reads besides `Ir` is in `Reader` and `FunctionReader`.
--   PosixMain             lib/snippets/POSIXMain.cc over the record `MainEditor`, with its laws in
--                         PosixMain/Laws; erasing a function fails an assertion while it is used
--   Consts                lib/snippets/DumpConsts.cc; what it reads besides `Ir` is `ConstReader`
--   Streams               what the C++ library's streams do with an `int` in the classic locale
--   Misc/Ints             tools/misc/Misc.cc: `to_int` and `test_err`; `llvm::Error` is the record
--                         `Errors`
--   Misc/Switch           tools/misc/Misc.cc: `test_StringSwitch` over `StringSwitch`, whose laws are
--                         `IsFirstMatch`
--   Misc/Shapes           tools/misc/Shape.hh, and `test_rtti` of tools/misc/Misc.cc; `double` is the
--                         record `Doubles`. What `formatv` makes of a pattern without an index,
--                         which its documentation does not allow, is a text or a fault.
--   Misc/People, Misc/Documents
--                         tools/misc/Person.hh, and `test_yaml` of tools/misc/Misc.cc, where
--                         `yaml::Output` is the record `Output`
--   Misc/Digests, Misc/Formats, Misc/StringRefs, Misc/Twines, Misc/Arrays
--                         tools/misc/Misc.cc: `test_md5`, `test_format`, `test_StringRef`,
--                         `test_Twine` with `takeCallBack`, `test_ArrayRef` and
--                         `test_PackedVector`, each over a record for the LLVM classes that it uses
--   Misc/Main             tools/misc/Misc.cc: `main`, over all of these records, which Misc/Main/Sample
--                         meets. Twines of temporaries, of which LLVM's documentation says that they
--                         may not be kept, have no law.
--   CountLi               lib/snippets/CountLI.cc over the record `LoopInfo`
--   Templates             lib/templates, without InstVisit.cc
--   Common                lib/mybase/Common.cc: `cppDemangle`, with `std::shared_ptr` as a pointer and
--                         the number of its owners
--   CfgPath               lib/snippets/DumpCFGPath.cc: `hasPath` and `traversePath`
--   Utils/Pointers, Utils/Manipulation, Utils/Functions, Utils/Exprs, Utils/Types, Utils/Blocks
--                         lib/mybase/LLUtils.cc, in the order of the file
--   Utils/Visits          include/LLUtils.hh: `visitBB`
--   Dump/Names, Dump/InstKind, Dump/InstType, Dump/Printing, Dump/Linkage
--                         lib/mybase/LLDump.cc and include/LLDump.hh
-- A function keeps its name, in snake case: `isPointerValue` is `is_pointer_value`.
--
-- Fuel: `hasPath` calls itself on a block that is not visited yet, so the number of blocks and one
-- more calls are deep enough; `isIntegerRelatedType` and `elimConstExpr` go down in what a type or
-- an expression is built of, so their fuel is its depth and one more; the digits of a number are
-- fewer than the number and one more. `visited` of `hasPath` is passed by value, so the model
-- passes the set on and never back. `unsigned` and `size_t` arithmetic is written modulo 2 ^ 32
-- and 2 ^ 64.
--
-- Not modelled: what a pass declares to require and to preserve, and its registration, which the
-- pass manager reads; lib/templates/InstVisit.cc, which does not compile; the template `ToString` and
-- macros that nothing calls; in what order `std::cout` and `errs()` reach a terminal; and the inputs
-- in res, which are no part of the program.
pub mod Base
pub mod Outcome
pub mod Errs
pub mod Streams
pub mod Llvm
pub mod CfgPath
pub mod CountBb
pub mod PosixMain
pub mod Consts
pub mod Utils
pub mod Dump
pub mod DumpTool
pub mod CountLi
pub mod Templates
pub mod Common
pub mod Misc
