-- ===== src/Alerts/Safety.antt =====
-- What every operation of the ledger keeps: the outbox only grows, a delivered message is final,
-- no message is attempted more than five times, and the columns of a row agree with its state.
pub mod Rows
pub mod Ids
pub mod Advance
pub mod Checks
pub mod Recover
pub mod Enqueue
pub mod Claim
pub mod Complete
pub mod Routes
pub mod Incidents
pub mod Run
