-- ===== src/Resources.antt =====
-- internal/resources/tuning.go
pub mod Host
pub mod Cgroup
pub mod Budget
mod Tests
