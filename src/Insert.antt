-- ===== src/Insert.antt =====
-- internal/rewrite: how one insert is cut into chunks, and how a failing one is retried.
pub mod Chunks
pub mod Retries
mod Tests
