-- ===== src/Parser.antt =====
-- lib/Parser/Parser.cpp: the reader of Souper's textual form.
pub mod Token
pub mod Lexer
pub mod Message
pub mod TypeCheck
pub mod InstCheck
pub mod State
pub mod Attribute
pub mod Statement
pub mod Facts
pub mod Definition
pub mod Line
pub mod Sound
pub mod Greatest
