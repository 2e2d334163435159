-- ===== src/Order.antt =====
-- src/sentum/trader/order: orders, their manager, the ledger of confirmed positions and the session that
-- joins them.
pub mod Types
pub mod Json
pub mod Manager
pub mod Ledger
pub mod Session
