-- ===== src/Api/Lifecycle.antt =====
-- What the handlers do to the lifecycle of a deposit.
pub mod Trail
pub mod Legal
pub mod Run
pub mod Deposits
pub mod Settlement
pub mod Utility
pub mod Credentials
pub mod Serve
