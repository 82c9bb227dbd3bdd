-- ===== src/Oracles.antt =====
-- Oracles that judge a run: src/chaosatlas/oracles/.
pub mod Ledger
pub mod Contract
pub mod Ownership
pub mod Registry
