-- ===== src/Lexer/Lines.antt =====
-- How the lexer moves over lines.
pub mod Readers
pub mod Tokens
pub mod All
