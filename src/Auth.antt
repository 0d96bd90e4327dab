-- ===== src/Auth.antt =====
-- backend/app/auth: local users, their roles and permissions, and their sessions.
pub mod Model
pub mod Store
pub mod Audit
pub mod Security
pub mod Passwords
pub mod Attempts
pub mod Login
pub mod Users
pub mod Registration
pub mod Guards
pub mod Sessions
pub mod Api
