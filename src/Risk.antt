-- ===== src/Risk.antt =====
-- The risk components: the entry check of the trade engine, the portfolio check and the daily limits.
pub mod Config
pub mod Entry
pub mod Portfolio
pub mod Daily
