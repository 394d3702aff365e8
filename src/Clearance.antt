-- ===== src/Clearance.antt =====
-- The workflows that clear a shipment: internal/customs, internal/approvals, internal/aggregate.
pub mod Customs
pub mod Numbering
pub mod Approvals
pub mod Aggregate
mod Examples
