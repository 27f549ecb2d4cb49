-- ===== src/Lib.antt =====
-- XMiete's server keeps rental deposits: a JSON API takes a deposit from the request of a tenant
-- through identification, pledge, release or claim, partial release and settlement to its end. This
-- library models the server, which is written in Go under server/internal/, and the SDK in Go.
--
-- The parts and the files that model them; a path begins in server/internal/ unless it begins with
-- server/ or sdk-examples/:
--   Models         models/deposit.go. A struct is a record with its fields in snake_case, an
--                  omitted pointer is an `Option`, and a string type is a text with its constants.
--                  `LifecycleState` has a constructor per constant and `other` for any other text.
--   StateMachine   statemachine/transitions.go: the table of transitions and its tests. `Graph` has
--                  the diagram of LIFECYCLE.md and the transitions that the server has beside it.
--   Host           what comes from outside: fresh identifiers, the clock and the failures of the
--                  database as answers to the n-th call, and transactions that roll back.
--   Repository     db/postgres.go: Create, GetByID and UpdateState on the tables `deposits` and
--                  `deposit_history`. `View` reads the table as a map from identifiers to documents.
--   Issuance       issuance/session.go and store.go: a session of credential issuance and the
--                  interface SessionStore. `Postgres` is db/session_store.go, which fills it, and so
--                  is `Memory` the store of session.go; `Contract` is what the handlers rely on.
--                  `Credential` is issuance/credential.go, `StatusList` issuance/statuslist.go, and
--                  `Allocator` the allocation of indices there and in db/statuslist_store.go.
--                  `Metadata` has what api/issuer_handlers.go publishes of the issuer.
--   Crypto         golang-jwt, sha256, base64url, gzip and JSON arrays as records of functions, with
--                  the laws that are assumed of them, and the claims of the tokens.
--   Verification   verification/vp.go: the sessions of presentations, the request to the wallet, and
--                  `Token`, the checks of a token. `Parts` and `RoundTrip` are about what a wallet
--                  presents, `Issued` about a credential as it was issued, and `Accepted` about any
--                  token that is accepted.
--   Api            api/handlers.go, issuer_handlers.go, verifier_handlers.go, validate_handler.go
--                  and router.go. `Program` is what a handler does, as a tree of calls to the
--                  repository, the session store, the mailer and the webhook, with a branch for each
--                  answer; `Call` has the calls for credentials. `Deposits`, `Settlement`,
--                  `Utility`, `Issuer` and `Verifier` have the handlers,
--                  `Run` runs a handler on the state of the server, and `Server` routes requests.
--                  `Refusals` is about requests that leave no trace, for a transition that there
--                  is not (`Transitions`), an unpledged deposit (`Pledged`) or a session that is
--                  used up (`Presented`, by `Sessions` and `Closing`). `Amounts` is about
--                  proposals, `Issuing` about how a credential is handed out.
--                  `Lifecycle` has the proofs about all handlers: `Trail` says what a lawful
--                  document is, `Legal` what a handler may do, one rule for each of its parts.
--                  `Interleaving` serves requests at the same time: a step is one call to the
--                  outside, and turns say which request arrives or makes its next step. `Orderly`
--                  is what a handler may write to a history, `Histories` what its calls do to the
--                  tables, `Schedules` what holds after any turns, and `Rush` is about
--                  requests with one bearer token.
--   Auth           api/middleware/auth.go: the two middlewares, and the cache of public keys.
--   Validator      validator/: the report, the statutory rules of each country, and the checks.
--   Receipt        receipt/pdf.go: both receipts as the calls of fpdf, newest call first. `Calls` has
--                  the calls, `Parts` the blocks that both have, `Texts` and `Lines` what is to be
--                  read on them, and `ReleaseDay` is about the date of a release.
--   Mailer         mailer/mailer.go and smtp.go: the messages to the tenant, the templates carried out.
--   Process        server/cmd/server/main.go: the configuration, and the choice of the mailer.
--   Sdk            sdk-examples/go, the library for banks and landlords. `Openid4vp` is the verifier
--                  of presentations: `Request`, `Token` with its checks, `Accepted` about any token
--                  that it accepts, `Wire` and `Issued` about the credentials of the server, `Uuid`
--                  about its nonces. `Auth` is the validator of bearer tokens, and `Eid` the service
--                  for the identification of tenants with its webhook, whose goroutine is a task.
--   Calendar, Amount, Prelude
--                  the dates of the package time, float64 as an interface, and shared helpers.
--   Tests          runs on concrete inputs.
--
-- How the code corresponds: a handler is a `do` block whose steps are the statements of the Go
-- function in their order. A step that replies drops the rest, as an early return does, and a nil
-- dereference is the outcome `panicked`. A closure that is given to UpdateState maps a document to
-- a document, or to `none` where it dereferences nil. A request's body is `none` where its JSON does
-- not decode. Time is the number of nanoseconds since the year 1, and all loops are structural
-- recursion; `decimal_text` has one round of fuel for each unit of its number, which is more than
-- its digits.
--
-- Parameters: the JSON codec of documents, of which only is assumed that a text that was written
-- reads back; float64 (`Amount`), with no law unless a theorem names it; fpdf, gomail and
-- the HTTP client of the SDK; fmt's `%q`; signatures, hashes and encodings (`Crypto`), with laws where
-- a theorem names them, and the JSON that the SDK reads (`Decoder`, `WireLaws`). The handlers take
-- the rendering of receipts as a function.
--
-- Requests run one after the other in `Server` and in any order of their calls in `Interleaving`.
-- There a call is one step, as UpdateState, ExchangeCodeForToken and ConsumeByToken lock the row
-- (SELECT … FOR UPDATE) and the store in memory holds its mutex. The two statements of Create are
-- one step too, since no other request knows the fresh identifier. No lock is held between the
-- check of a transition and UpdateState: what `Lifecycle` says of trails is about `Server` only.
--
-- A statement to the database fails where `Host` says so; a foreign key that is not there is such a
-- failure.
--
-- The texts of the errors of rand and json in `Credential` are those of these packages, which the
-- handlers do not pass on.
--
-- The SDK does not check signatures (its `verifyIssuerJWT` says so), and neither does `Sdk`.
--
-- Not modelled: the connection to the database and the HTTP server of the process, the SDK's data
-- model, which are structs like those of `Models`, and the SDK in Java, Rust and TypeScript. The
-- middleware is not put in front of the routes.
pub mod Prelude
pub mod Calendar
pub mod Amount
pub mod Crypto
pub mod Models
pub mod StateMachine
pub mod Host
pub mod Repository
pub mod Issuance
pub mod Api
pub mod Validator
pub mod Verification
pub mod Auth
pub mod Receipt
pub mod Mailer
pub mod Process
pub mod Sdk
pub mod Tests
