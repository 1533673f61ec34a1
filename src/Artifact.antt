-- ===== src/Artifact.antt =====
-- internal/artifact/tar.go
pub mod Numbers
pub mod Header
pub mod Names
pub mod Pax
pub mod Plan
mod Tests
pub mod Merge
