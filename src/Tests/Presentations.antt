-- ===== src/Tests/Presentations.antt =====
-- A wallet that presents its credential for a session, and another request for the same session.
use xmiete.Prelude.{ℕ, ◌≡◌, refl, true, some, List, [], ◌∷◌, put, erase, lookup}
use xmiete.Calendar.{format_date, date_of, civil, day_number, parse_date}
use xmiete.Models.{pledged, Deposit}
use xmiete.Host.{Host}
use xmiete.Repository
use xmiete.Issuance.Postgres.{Sessions, postgres_sessions}
use xmiete.Verification.{build_vp_request}
use xmiete.Verification.Token.{verify_vp_token, verify_split, verify_parts, decode_disclosure}
use xmiete.Api.Call.{perform}
use xmiete.Api.Program.{
  decode, require, pass, reject_if, time_now, ask, fetch, update, fire_webhook,
}
use xmiete.Api.Verifier.{VpResponse, create_vp_request, receive_vp_response}
use xmiete.Api.Run.{World, run}
use xmiete.Api.Server.{Request, handle, serve, post_vp_request, post_vp_response}
use xmiete.Api.Refusals.Closing.{is_presented}
use xmiete.Api.Refusals.Presented.{after_presentation, presented_once}
use xmiete.Tests.Data.{thousandths, host, json, start}
use xmiete.Tests.Crypto.{encoding}
use xmiete.Tests.Signatures.{jwt}
use xmiete.Tests.Wallet.{server, token, let_flat}

abbrev naming : Host
naming = record host { uuid = λ n. "s" }

abbrev pledged_flat : Deposit ℕ
pledged_flat = record let_flat { deposit = record let_flat.deposit { lifecycle_state = pledged } }

abbrev world : World ℕ (Deposit ℕ) Sessions
world = record start {
  db = record start.db {
    deposits = record { id = "u"; lifecycle_state = pledged; raw = pledged_flat } ∷ [];
  };
}

abbrev asked : List (Request ℕ)
asked = post_vp_request "u" ∷ []

abbrev response : VpResponse
response = record { vp_token = token; state = "s" }

accepted :
    is_presented
      (after_presentation json postgres_sessions naming server asked "u" response 0 world).0
    ≡ true
unfolding serve handle create_vp_request receive_vp_response run perform decode require pass
    reject_if time_now ask fetch update fire_webhook put erase lookup build_vp_request
    verify_vp_token verify_split verify_parts decode_disclosure encoding jwt parse_date format_date
    date_of civil day_number Repository.get_by_id Repository.update_state Repository.select_data
accepted = refl

presented_once_example :
    (run json postgres_sessions
      (handle server (post_vp_response "other" (some (record { vp_token = "t"; state = "s" }))))
      naming
      30
      (after_presentation json postgres_sessions naming server asked "u" response 0 world).2).2
    ≡ (after_presentation json postgres_sessions naming server asked "u" response 0 world).2
presented_once_example =
    presented_once json postgres_sessions naming server asked "u" response 0 world refl accepted
      "other" (record { vp_token = "t"; state = "s" }) refl 30
