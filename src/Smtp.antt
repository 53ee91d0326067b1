-- ===== src/Smtp.antt =====
-- smtp/: the SMTP session.
pub mod Replies
pub mod Session
pub mod Process
pub mod Valid
pub mod Files
pub mod Commands
pub mod Dispatch
pub mod Feed
pub mod Dialogue
pub mod Examples
mod Tests
