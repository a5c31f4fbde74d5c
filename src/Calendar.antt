-- ===== src/Calendar.antt =====
-- src/aios/market_calendar.py: the sessions of the U.S. equity market.
pub mod Dates
pub mod Sessions
pub mod Years
pub mod Holidays
pub mod InYear
pub mod Window
pub mod Latest
mod Tests
