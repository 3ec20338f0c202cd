-- ===== src/Parser.antt =====
-- compiler/src/parser.rs: tokens to syntax. The whole of `Parser`, with its entry points.
pub mod Cursor
pub mod Errors
pub mod Outcome
pub mod Words
pub mod Exprs
pub mod Names
pub mod Statements
pub mod Sections
pub mod Contracts
pub mod Descriptions
pub mod Behaviors
pub mod Units
pub mod Hash
pub mod References
