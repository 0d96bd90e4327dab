-- ===== src/Context.antt =====
-- backend/app/context: asset identity and communication policy.
pub mod Model
pub mod Identity
pub mod Policy
