-- ===== src/Lexer.antt =====
-- compiler/src/lexer.rs: source text to tokens.
pub mod Tokens
pub mod Numbers
pub mod State
pub mod Readers
pub mod Lex
pub mod Lines
