-- ===== src/Examples.antt =====
-- The theorems at concrete inputs.
pub mod Graphs
pub mod Contracts
pub mod Flow
pub mod Texts
pub mod Tokens
pub mod Builds
pub mod Deps
pub mod Parsing
pub mod Roles
pub mod Bodies
pub mod Ownership
