-- ===== src/Ledger.antt =====
-- sdk/typescript/src/ledger.ts: evidence read from finalized transactions, and its reconciliation.
pub mod Decode
pub mod Evidence
pub mod Layout
pub mod RoundTrip
pub mod Written
pub mod Find
pub mod Match
pub mod Reconcile
pub mod Observe
pub mod Pool
pub mod History
pub mod Search
pub mod Observed
pub mod Matched
pub mod Keys
pub mod Transfers
pub mod TokenTransfers
pub mod Reconciled
pub mod TokenReconcile
pub mod TokenReconciled
pub mod Found
pub mod Poll
pub mod Polled
