-- ===== src/Markets.antt =====
-- src/aios/markets.py: markets, venues and dated listings.
pub mod Schema
pub mod Checks
pub mod Registry
pub mod Outcomes
pub mod Active
pub mod History
pub mod Invariant
pub mod Isin
pub mod Lookup
mod Tests
