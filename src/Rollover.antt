-- ===== src/Rollover.antt =====
-- src/aios/rollover_journal.py: the append-only evidence of governed forward rollovers.
pub mod Schema
pub mod Values
pub mod Payload
pub mod Files
pub mod Verdicts
pub mod Facts
pub mod Chain
pub mod Rounds
pub mod Steps
pub mod Order
pub mod Write
pub mod Build
pub mod Readings
pub mod Accepted
pub mod Extend
pub mod Start
mod Tests
