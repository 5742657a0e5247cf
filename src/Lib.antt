-- ===== src/Lib.antt =====
-- Souper, a superoptimizer for LLVM IR: instructions, the context that owns and shares them, their
-- costs and searches over them, the concrete interpreter, the known-bits analysis that prunes candidate
-- replacements, and the parser of its textual form.
--
-- Souper reads a left-hand side, enumerates cheaper right-hand sides, and asks a solver whether one
-- refines the other. Instructions (lib/Inst/Inst.cpp) form an acyclic graph of pointers; `cost` and
-- `instCount` compare candidates. The interpreter (lib/Infer/Interpreter.cpp) evaluates an instruction
-- on concrete inputs, and the abstract interpreters (lib/Infer/AbstractInterpreter.cpp) bound its
-- values without inputs; both serve to discard candidates before the solver is asked.
--
-- Which file models which part:
--
-- Inst/Kind, Inst/Names, Inst/Class: `Inst::Kind`, `getKindName`, `getKind`, `isCommutative` and the
-- other predicates, `getOverflowComplement`, `getBasicInstrForOverflow` and `getCost`. Inst/Graph:
-- `struct Inst` on a store from pointers to records, `costHelper`, `cost`, `countHelper` and
-- `instCount`. The two helpers share the recursion `walk`, which threads the set `Visited` as a list.
-- An `int` cost is a number: it would take some 400 million instructions to leave its range.
-- Inst/Find: `findInsts` and the functions that call it, with their queue and visited set, and
-- `getHoles`.
--
-- Inst/Context: `InstContext` of lib/Inst/Inst.cpp and `Inst::Profile`. A pointer is the number of
-- allocations before its own; the identifier that a llvm::FoldingSet looks up is a list of tagged words.
-- `FindNodeOrInsertPos` and `std::sort` are parameters, the record `Library`, whose laws stand in
-- Inst/Context/Laws; Example/Context gives an instance. Fields that C++ leaves without a value are 0 or
-- false. Inst/Context/Built has the contexts that the functions of InstContext can fill.
--
-- Interp/Value: `EvalValue` and the fatal errors. Interp/Arith and Interp/Single: `evaluateAddNSW` to
-- `evaluateAShr` and `evaluateSingleInst` with every case of its switch. Interp/Memo: `evaluateInst`,
-- its cache and the state of `std::rand`, which is a parameter.
--
-- KnownBits/Bounds, KnownBits/Transfer, KnownBits/Switch and KnownBits/Funnel: the helpers, the
-- namespace BinaryTransferFunctionsKB, and the two-operand cases and the funnel shifts of `findKnownBits` of
-- lib/Infer/AbstractInterpreter.cpp. KnownBits/Merge: `mergeKnownBits`. `unsigned` arithmetic wraps at 2 ^ 32.
--
-- Parser/Token and Parser/Lexer: `Lexer::getNextToken` of lib/Parser/Parser.cpp, on a list of bytes,
-- with each of its errors. A fact `knownBits` is read without a test for the end of the text, so
-- `Lexer` also holds the bytes that are known behind the text; the parser's own texts are followed by the
-- 0 that LLVM keeps there. Parser/Lexer/TestLexer: `TestLexer`, as the list of lines that it prints.
-- Parser/Message: error texts as lists of pieces, and results that may be an error. Parser/TypeCheck:
-- `lossy`, `typeCheckOpsMatchingWidths` and `typeCheckPhi`; Parser/InstCheck: `typeCheckInst`. They
-- return the operands and the width that the source leaves in its arguments, and the context, in which
-- they may have made constants.
--
-- Parser/State: `struct Parser` as a record of what is constant and one of what changes, and
-- `parseInst`. Parser/Attribute: `parseInstAttribute`. Parser/Statement, Parser/Facts and
-- Parser/Definition: the cases of `parseLine`. Parser/Line: `parseLine` itself, `parseReplacements` and the
-- functions of include/souper/Parser/Parser.h. A step gives a state or a reason to stop: an error with its
-- place, undefined behaviour, or the end of the fuel. What the parser's objects hold after an error is not
-- modelled, and an error lacks the name of the file. Parser/Sound has the invariants of the parser's state, with
-- Parser/Greatest, which says what BlockPCIdxMap is for.
-- The loops of the parser run on fuel; one of them can run for ever.
--
-- Llvm/ApInt and Llvm/KnownBits: llvm::APInt and llvm::KnownBits are not in the repository. They are
-- records of operations, which the models take as arguments, with records of laws that state their
-- documented behaviour, which the theorems take. Example/Bits, Example/BitsLaws and Example/Known give
-- an instance that meets all the laws, with numbers as lists of bits. The other files of Example hold
-- tests, and each theorem of the list below at a concrete input. Prelude holds shared helpers.
--
-- Recursion over the graph runs on fuel, since pointers may form any graph. The theorems show that fuel
-- above the number of the root is enough in a store where operands have smaller numbers than their
-- users, as in a store filled by InstContext, where operands are made first; for the searches, fuel
-- above one more than the number of all operands; for `TestLexer`, fuel above the length of the text and
-- of the memory that is known behind it.
--
-- Not modelled: the printing of replacements, the order of instructions, `getVariables`, `getInstCopy` and
-- `instJoin`; the SMT solver, the Redis store, the LLVM pass and the
-- tools, which are input and output or glue; synthesis, the constant-range analysis and the rest of
-- `findKnownBits`.
pub mod Prelude
pub mod Inst
pub mod Llvm
pub mod Interp
pub mod KnownBits
pub mod Parser
pub mod Example
