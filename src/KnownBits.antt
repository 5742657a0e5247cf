-- ===== src/KnownBits.antt =====
-- lib/Infer/AbstractInterpreter.cpp: the known-bits analysis.
pub mod Bounds
pub mod Transfer
pub mod Contains
pub mod Merge
pub mod Ends
pub mod Bitwise
pub mod Shift
pub mod Compare
pub mod Order
pub mod Switch
pub mod Hints
pub mod Funnel
pub mod Sound
