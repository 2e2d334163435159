-- ===== src/Collector.antt =====
-- src/sentum/collector: reading candles from the exchange's stream.
pub mod Parser
pub mod Queue
pub mod Symbols
pub mod Handler
