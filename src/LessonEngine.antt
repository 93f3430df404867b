-- ===== src/LessonEngine.antt =====
-- crates/lesson-engine: hints, feedback, progression and the catalogue.
pub mod Hints
pub mod Feedback
pub mod Catalog
pub mod Progression
mod Tests
