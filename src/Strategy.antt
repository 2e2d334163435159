-- ===== src/Strategy.antt =====
-- src/sentum/trader/strategy: the interface of a strategy and the strategies.
pub mod Types
pub mod Frames
pub mod Simple
pub mod Combined
pub mod Quiet
pub mod Legacy
