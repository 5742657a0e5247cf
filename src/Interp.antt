-- ===== src/Interp.antt =====
-- lib/Infer/Interpreter.cpp and include/souper/Infer/Interpreter.h: the concrete interpreter.
pub mod Value
pub mod Arith
pub mod Single
pub mod Memo
