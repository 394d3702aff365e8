-- ===== src/Queries.antt =====
-- The packages that look at lists of records: internal/timeline, internal/reconciliation,
-- internal/search and internal/filter.
pub mod Timeline
pub mod Reconciliation
pub mod Keys
pub mod Differences
pub mod Search
pub mod Answers
pub mod Filter
mod Examples
