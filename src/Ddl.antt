-- ===== src/Ddl.antt =====
-- internal/ddl/ddl.go
pub mod Scanner
pub mod Arguments
pub mod Identifiers
pub mod Statements
mod Tests
