-- ===== src/Sdk/Eid.antt =====
-- sdk-examples/go/eid: the verification of a tenant by an eID provider. This file is models.go and
-- service.go; the child Webhook is webhook.go, and Updates says which webhooks start an update.
mod Service
pub mod Webhook
pub mod Updates
unfoldable pub use Service.*
