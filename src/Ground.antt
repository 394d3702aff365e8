-- ===== src/Ground.antt =====
-- Slots of a terminal and vehicles on the ground: internal/warehouse, internal/transport and internal/route.
pub mod Warehouse
pub mod Spacing
pub mod Transport
pub mod Route
mod Examples
