-- ===== src/Harness.antt =====
-- internal/harness: what both controllers use to talk to Harness.
pub mod Errors
pub mod Identifiers
pub mod Session
pub mod Replies
pub mod Answers
mod Tests
