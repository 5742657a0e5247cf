-- ===== src/Example.antt =====
-- A concrete llvm::APInt and llvm::KnownBits that meet the laws, and the theorems at concrete inputs.
mod Bits
mod BitsLaws
mod Parser
mod Known
mod Inst
mod Interp
mod KnownBits
mod Funnel
mod Context
mod Built
mod TypeCheck
mod Replacement
