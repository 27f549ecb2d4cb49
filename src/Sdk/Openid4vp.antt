-- ===== src/Sdk/Openid4vp.antt =====
-- sdk-examples/go/openid4vp: the request to the wallet, and the checks of what it presents.
pub mod Models
pub mod Request
pub mod Token
pub mod Accepted
pub mod Wire
pub mod Issued
pub mod Uuid
