-- ===== src/Backend.antt =====
-- The services of the backend, under backend/src/wto_backend.
pub mod Idempotency
pub mod Access
pub mod Presence
pub mod Sessions
pub mod Credentials
