-- ===== src/Studio.antt =====
-- examples/studio-backend/src: the settlement worker of a studio's backend.
pub mod Store
pub mod Worker
