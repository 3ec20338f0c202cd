-- ===== src/Semantic.antt =====
-- compiler/src/semantic/: the analysis of a behavior that was parsed.
pub mod Errors
pub mod Context
pub mod Checks
pub mod Values
pub mod Bounds
pub mod Calls
pub mod Exprs
pub mod Labels
pub mod Contracts
pub mod Guarantees
pub mod Ownership
pub mod Analysis
pub mod Statements
pub mod Roles
pub mod Outputs
