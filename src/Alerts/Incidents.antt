-- ===== src/Alerts/Incidents.antt =====
-- The incident lifecycle of `AlertStore` in src/aios/alerts.py: `emit`, `acknowledge`, `resolve`,
-- and the messages that they put into the outbox.
pub mod Notify
pub mod Lifecycle
pub mod Actions
