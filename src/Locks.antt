-- ===== src/Locks.antt =====
-- cmgr/operation_lock.go and the keyed locks of cmgr/docker.go.
pub mod File
pub mod Operation
pub mod Keyed
mod Examples
