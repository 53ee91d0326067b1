-- ===== src/Common.antt =====
-- The other parts of common/ that the session uses.
pub mod Platform
pub mod Tar
pub mod Writer
pub mod Metadata
pub mod Syncs
pub mod Log
mod Examples
