-- ===== src/Alerts/Outbox.antt =====
-- The notification outbox of `AlertStore` in src/aios/alerts.py: enqueueing, leases, delivery
-- attempts, retries and dead letters.
pub mod Lookup
pub mod Recover
pub mod Enqueue
pub mod Claim
pub mod Complete
