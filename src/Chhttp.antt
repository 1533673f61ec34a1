-- ===== src/Chhttp.antt =====
-- internal/chhttp/client.go
pub mod Quoting
pub mod Rows
