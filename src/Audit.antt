-- ===== src/Audit.antt =====
-- internal/audit: the hash chain of the records, and the goroutine that writes them.
pub mod Chain
pub mod Linked
pub mod Recorder
pub mod Log
mod Tests
