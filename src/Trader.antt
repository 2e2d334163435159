-- ===== src/Trader.antt =====
-- The trade engine.
pub mod Position
pub mod Control
pub mod Engine
pub mod Paper
pub mod Query
