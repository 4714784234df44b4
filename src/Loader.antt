-- ===== src/Loader.antt =====
-- The challenge loader (cmgr/loader.go).
pub mod Dockerfile
pub mod Build
