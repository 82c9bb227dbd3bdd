-- ===== src/Feedback.antt =====
-- tools/feedback_protocol.py: the verdict on a run, the cards that record it, and the knowledge
-- base that a later project may read.
pub mod Classify
pub mod Verdicts
pub mod Card
pub mod Boundary
pub mod NextKb
pub mod Isolation
pub mod Ablation
mod Tests
