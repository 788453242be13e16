-- ===== src/Scan.antt =====
-- internal/scan: reading a stack's files.
pub mod Interp
pub mod EnvFile
