-- ===== src/Models.antt =====
-- The data model of server/internal/models/deposit.go: the lifecycle states, the deposit document
-- and the bodies of the requests. `A` is the type of Go's float64 (see Amount.antt), `Time` that of
-- time.Time (see Calendar.antt); a pointer that may be nil is an `Option`.
mod State
mod Party
mod Transport
mod Negotiation
mod Document
mod Requests
unfoldable pub use State.*
pub use Party.*
pub use Transport.*
pub use Negotiation.*
pub use Document.*
pub use Requests.*
