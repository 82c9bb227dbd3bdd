-- ===== src/Isolation/Manager.antt =====
-- isolation/manager.py: the coordinator of a lease's life, over the store and a provider.
pub mod Provider
pub mod Audit
pub mod Mutate
pub mod Release
pub mod Prepare
pub mod Reap
pub mod Sound
pub mod Verified
