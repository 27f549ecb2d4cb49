-- ===== src/Sdk.antt =====
-- The SDK in Go: sdk-examples/go.
pub mod Openid4vp
pub mod Auth
pub mod Eid
