-- ===== src/Client.antt =====
-- sdk/typescript/src/client.ts: transactions built for a settlement, and accounts read back.
pub mod Library
pub mod Prepare
pub mod Accounts
pub mod TokenPrepare
pub mod Namespace
pub mod Scaled
pub mod Paid
pub mod Prepared
pub mod Memos
pub mod Opened
pub mod TokenPrepared
