-- ===== src/Traffic.antt =====
-- Limits and replay protection of incoming calls: internal/ratelimit and internal/idempotency.
pub mod Ratelimit
pub mod Idempotency
pub mod Retry
mod Examples
