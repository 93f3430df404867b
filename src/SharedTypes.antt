-- ===== src/SharedTypes.antt =====
-- crates/shared-types: the types that the application and the guest agent share.
pub mod Float
pub mod Json
pub mod Lesson
pub mod Progress
pub mod Validation
pub mod Registry
pub mod Protocol
mod Tests
