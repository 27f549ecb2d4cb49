-- ===== src/Issuance.antt =====
-- The issuance of credentials: server/internal/issuance.
pub mod Session
pub mod Postgres
pub mod Credential
pub mod Allocator
pub mod StatusList
pub mod Contract
pub mod Memory
pub mod Metadata
