-- ===== src/Tests.antt =====
-- Runs of the definitions on concrete inputs, and the theorems applied to them.
pub mod Splits
pub mod Instructions
pub mod Ledgers
pub mod Stores
pub mod Tokens
pub mod Clients
pub mod Workers
