-- ===== src/Agent.antt =====
-- guest/linuxlab-agent: the service inside the guest that answers the host.
pub mod Session
pub mod Args
pub mod System
pub mod Outcomes
pub mod Validators
pub mod Filesystem
pub mod Identity
pub mod Service
pub mod Process
pub mod Package
pub mod Browsing
pub mod Lessons
mod Tests
