-- ===== src/Protocols.antt =====
-- backend/app/protocols: the offline decoder of synthetic Modbus events.
pub mod Model
pub mod Profile
pub mod Events
pub mod Semantics
pub mod Claims
pub mod Decoder
pub mod Values
pub mod Compatible
pub mod Meaning
pub mod Interpreted
pub mod Provenance
pub mod Contract
