-- ===== src/Tests.antt =====
-- The theorems of the development at concrete inputs, and runs of the definitions.
pub mod Samples
pub mod Analyst
pub mod Modbus
pub mod Authorization
pub mod Identities
pub mod Intake
pub mod Shipped
pub mod Profiles
pub mod Escalations
pub mod Office
pub mod Accounts
