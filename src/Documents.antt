-- ===== src/Documents.antt =====
-- The papers of a shipment: internal/manifest, internal/claims and the quotes of internal/pricing.
pub mod Manifest
pub mod Weights
pub mod Claims
pub mod Pricing
mod Examples
