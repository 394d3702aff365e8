-- ===== src/Desk.antt =====
-- The small tools of the operations desk: internal/alerts, internal/tenant, internal/scan,
-- internal/priority, internal/retention, internal/expiry and internal/notification.
pub mod Alerts
pub mod Tenants
pub mod Scan
pub mod Priority
pub mod Retention
pub mod Notification
