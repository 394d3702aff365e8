-- ===== src/Service.antt =====
-- internal/service/application.go: the use cases, over any store, and internal/permissions. The
-- store is the interface of internal/repository/repository.go.
pub mod Repository
pub mod Permissions
pub mod Accounts
pub mod Shipments
pub mod Legs
pub mod Compliance
pub mod Authentication
pub mod Gate
pub mod Replay
pub mod Access
pub mod Stored
pub mod Safety
pub mod Isolation
mod Examples
