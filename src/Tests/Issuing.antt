-- ===== src/Tests/Issuing.antt =====
-- A wallet that gets the credential of a pledged deposit, and asks again.
use xmiete.Prelude.{ℕ, ◌*◌, ◌≡◌, refl, true, false, none, some, List, [], ◌∷◌, ◌≤◌, map}
use xmiete.Calendar.{second, date_of, civil, day_number, format_date, midnight, parse_date}
use xmiete.Prelude.Decimal.{decimal_text}
use xmiete.Prelude.Int.{pos}
use xmiete.Models.{pledged, Deposit}
use xmiete.Host.{Host}
use xmiete.Repository
use xmiete.Issuance.Credential.{build_sd_jwt, dotted}
use xmiete.Issuance.Postgres.{SessionRow, Sessions, postgres_sessions, query_one, consume_by_token}
use xmiete.Issuance.Postgres.Keeps.{postgres-Contract}
use xmiete.Api.Call.{perform}
use xmiete.Api.Program.{decode, require, reject_if, time_now, ask, load}
use xmiete.Api.Issuer.{CredentialRequest, issue}
use xmiete.Api.Run.{World, run}
use xmiete.Api.Issuing.{is_issued}
use xmiete.Api.Issuing.Once.{issue_once}
use xmiete.Api.Server.{handle}
use xmiete.Api.Interleaving.{Busy, proceed, step, advance, turn, turns}
use xmiete.Api.Interleaving.Rush.Pool.{issued_count, rush, issue_rush}
use xmiete.Tests.Data.{thousandths, host, json, start}
use xmiete.Tests.Crypto.{encoding}
use xmiete.Tests.Signatures.{jwt}
use xmiete.Tests.Issuance.{waiting}
use xmiete.Tests.Wallet.{server, let_flat}

-- Each fresh identifier is the one of the signed document, at its time.
abbrev still : Host
still = record host { uuid = λ n. "uu"; clock = λ n. 5 * second }

abbrev opened : SessionRow
opened = record waiting { status_list_index = some (pos 7) }

abbrev world : World ℕ (Deposit ℕ) Sessions
world = record start {
  db = record start.db {
    deposits = record { id = "u"; lifecycle_state = pledged; raw = let_flat } ∷ [];
  };
  wallets = record start.wallets { sessions = opened ∷ [] };
}

abbrev request : CredentialRequest
request = record { format = "vc+sd-jwt"; vct = "DepositPledgeAttestation" }

first :
    is_issued
      (run json postgres_sessions
        (issue server.issuer "Bearer token" (some request))
        still
        0
        world).0
    ≡ true
unfolding issue run perform decode require reject_if time_now ask load query_one consume_by_token
    build_sd_jwt encoding jwt dotted decimal_text parse_date midnight format_date date_of civil
    day_number Repository.get_by_id Repository.select_data
first = refl

issue_once_example :
    is_issued
      (run json postgres_sessions
        (issue server.issuer "Bearer token" none)
        still
        20
        (run json postgres_sessions
          (issue server.issuer "Bearer token" (some request))
          still
          0
          world).2).0
    ≡ false
issue_once_example =
    issue_once server.issuer json postgres_sessions postgres-Contract "Bearer token" (some request)
      still 0 world first none still 20

-- Two requests that take their steps in turn.
abbrev places : List ℕ
places = 0 ∷ 1 ∷ 0 ∷ 1 ∷ 0 ∷ 1 ∷ 0 ∷ 1 ∷ 0 ∷ 1 ∷ 0 ∷ 1 ∷ 0 ∷ 1 ∷ 0 ∷ 1 ∷ 0 ∷ 1 ∷ []

abbrev rushed : Busy ℕ (Deposit ℕ) Sessions
rushed = turns json postgres_sessions still server (map proceed places) (record {
  pool = rush server "Bearer token" (some request ∷ some request ∷ []);
  calls = 0;
  world = world;
})

one_issued : issued_count rushed.pool ≡ 1
unfolding issued_count turns turn advance step handle issue perform decode require reject_if
    time_now ask load query_one consume_by_token build_sd_jwt encoding jwt dotted decimal_text
    parse_date midnight format_date date_of civil day_number Repository.get_by_id
    Repository.select_data
one_issued = refl

issue_rush_example : issued_count rushed.pool ≤ 1
issue_rush_example =
    issue_rush server json postgres_sessions postgres-Contract still "Bearer token"
      (some request ∷ some request ∷ []) places 0 world
