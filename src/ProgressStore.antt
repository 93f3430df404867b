-- ===== src/ProgressStore.antt =====
-- crates/progress-store: what is kept about the learner, on the local machine.
pub mod Codes
pub mod Lessons
pub mod History
pub mod Migrations
mod Tests
