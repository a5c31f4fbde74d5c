-- ===== src/Alerts.antt =====
-- src/aios/alerts.py and src/aios/notifications.py: the operations ledger.
pub mod Schema
pub mod Payload
pub mod Ledger
pub mod Checks
pub mod Ends
pub mod Reads
pub mod Outbox
pub mod Routes
pub mod Jobs
pub mod Incidents
pub mod Safety
pub mod Delivery
pub mod Effects
mod Samples
mod Tests
