-- ===== src/Research.antt =====
-- src/sentum/research: the promotion of models and the simulated portfolio.
pub mod Promotion
pub mod Portfolio
