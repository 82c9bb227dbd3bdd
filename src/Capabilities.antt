-- ===== src/Capabilities.antt =====
-- src/chaosatlas/capabilities: which fault may be tried on which target, and on what evidence.
pub mod Contracts
pub mod Catalog
pub mod Core
pub mod Assessment
pub mod Grounds
pub mod Records
pub mod Sound
pub mod Once
pub mod Grades
pub mod Coverage
mod Tests
