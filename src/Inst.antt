-- ===== src/Inst.antt =====
-- lib/Inst/Inst.cpp and include/souper/Inst/Inst.h: instructions.
pub mod Kind
pub mod Names
pub mod Class
pub mod Laws
pub mod Graph
pub mod Find
pub mod Walk
pub mod Cost
pub mod Context
