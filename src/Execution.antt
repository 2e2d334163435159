-- ===== src/Execution.antt =====
-- src/sentum/trader/execution: the simulated venue, the exchange's rules and their cache, the account
-- reconciler and the strategy runtime of the test network.
pub mod Simulated
pub mod Rules
pub mod Testnet
pub mod Metadata
