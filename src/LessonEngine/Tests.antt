-- ===== src/LessonEngine/Tests.antt =====
-- The theorems about crates/lesson-engine at concrete inputs.
mod Attempts
mod Messages
mod Course
