-- ===== src/Isolation/Tests.antt =====
-- Runs of the isolation components on small inputs, and instances of their theorems.
mod Fixtures
mod Contracts
mod Blueprint
mod Planner
mod Secrets
mod Store
mod Manager
