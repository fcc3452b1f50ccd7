-- ===== src/Studio/Worker.antt =====
-- examples/studio-backend/src/worker.ts: the settlement worker.
pub mod Action
pub mod Network
pub mod Evidence
pub mod Resolve
pub mod Settle
pub mod Paid
pub mod PaidEvent
pub mod Triple
pub mod Closing
pub mod Clear
pub mod ResolveClear
pub mod RecordClear
pub mod SettleClear
pub mod Batch
