-- ===== src/Policy.antt =====
-- The policy loop of tools/: what a run's result tells the policy.
pub mod Feedback
pub mod Ruling
pub mod Eligibility
pub mod Gate
pub mod Controller
mod Tests
