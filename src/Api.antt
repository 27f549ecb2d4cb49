-- ===== src/Api.antt =====
-- The HTTP handlers of server/internal/api.
pub mod Call
pub mod Program
pub mod Deposits
pub mod Settlement
pub mod Utility
pub mod Amounts
pub mod Issuer
pub mod Verifier
pub mod Run
pub mod Server
pub mod Issuing
pub mod Refusals
pub mod Lifecycle
pub mod Interleaving
