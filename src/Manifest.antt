-- ===== src/Manifest.antt =====
-- internal/manifest/manifest.go
pub mod Build
pub mod Bundle
pub mod Keys
mod Tests
