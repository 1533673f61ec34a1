-- ===== src/Rewrite.antt =====
-- internal/rewrite/compactor.go and internal/rewrite/processor.go
pub mod Partitions
pub mod Normalizing
pub mod Stages
pub mod Deadline
mod Tests
