-- ===== src/Alerts/Delivery.antt =====
-- What claims and completions of the outbox achieve.
pub mod Retry
pub mod Expiry
pub mod Order
pub mod Settle
pub mod Handed
pub mod Lease
pub mod Once
pub mod Final
