-- ===== src/Audit.antt =====
-- internal/audit/checkpoint.go and history.go: the parts of the public log.
pub mod Merkle
pub mod Checkpoint
pub mod Quorum
pub mod History
