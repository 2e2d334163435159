-- ===== src/Market.antt =====
-- src/sentum/market: the lock-free queue, the candle store, the indicators, the event bus and the
-- latency figures.
pub mod Types
pub mod Spsc
pub mod Store
pub mod Indicators
pub mod Latency
pub mod Bus
