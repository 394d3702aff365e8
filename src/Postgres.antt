-- ===== src/Postgres.antt =====
-- internal/repository/postgres: the store over a database. A statement of SQL is a function on the
-- tables that migrations/001_core.sql creates.
pub mod Tables
pub mod Accounts
pub mod Shipments
pub mod Legs
pub mod Compliance
pub mod Outbox
pub mod Repository
pub mod Capacity
pub mod Divergence
pub mod Agreement
pub mod Migration
mod Examples
