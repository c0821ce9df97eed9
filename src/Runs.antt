-- ===== src/Runs.antt =====
-- Concrete runs of the code, and the theorems at concrete inputs.
pub mod Values
pub mod Codec
pub mod Amounts
pub mod Bases
pub mod Blocks
pub mod Derivations
pub mod Filters
pub mod Integers
pub mod Scripts
pub mod Roots
pub mod Partial
pub mod Signing
pub mod Transactions
