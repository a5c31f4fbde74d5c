-- ===== src/Alerts/Effects.antt =====
-- What the other operations of the ledger achieve.
pub mod Elsewhere
pub mod Repeat
pub mod Scope
pub mod Disable
pub mod Redaction
pub mod Exclusive
pub mod Evidence
pub mod Symptom
