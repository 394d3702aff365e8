-- ===== src/Domain.antt =====
-- internal/domain: the data of the system and the rules that every store and service applies.
pub mod Types
pub mod Rules
pub mod Transitions
pub mod Validation
mod Examples
