-- ===== src/Memory.antt =====
-- internal/repository/memory/store.go: the store over Go maps. The state and its operations, then
-- what holds of them. A method runs under the store's mutex, so it is one step.
pub mod State
pub mod Accounts
pub mod Shipments
pub mod Legs
pub mod Compliance
pub mod Outbox
pub mod Steps
pub mod Capacity
pub mod Frames
pub mod Locking
pub mod Booking
pub mod Listing
pub mod Retries
pub mod Delivery
pub mod Sessions
pub mod Worker
pub mod Holding
pub mod Settling
pub mod Examples
