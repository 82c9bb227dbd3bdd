-- ===== src/Isolation.antt =====
-- Isolation of an experiment's environment: src/chaosatlas/isolation/.
pub mod Identity
pub mod Secrets
pub mod Contracts
pub mod Blueprint
pub mod Planner
pub mod Store
pub mod Manager
mod Tests
