-- ===== src/Llvm.antt =====
-- The parts of LLVM that Souper calls, as parameters: LLVM's sources are not in the repository.
pub mod ApInt
pub mod KnownBits
