-- ===== src/Ledgers.antt =====
-- The in-memory ledgers of the repository: internal/capacity, internal/booking, internal/finance.
pub mod Capacity
pub mod Booking
pub mod Finance
mod Examples
