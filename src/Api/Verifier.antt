-- ===== src/Api/Verifier.antt =====
-- The handlers of server/internal/api/verifier_handlers.go for presentations.
use Prim.Native.String.{◌++◌}
use xmiete.Prelude.{String, not, Option, some, ◌==◌}
use xmiete.Calendar.{Time, after, format_rfc3339}
use xmiete.Amount.{Amount}
use xmiete.Models.{pledged, same_state, WalletMetadata, Deposit}
use xmiete.Verification.{VpRequest, new_session, build_vp_request}
use xmiete.Verification.Token.{verify_vp_token}
use xmiete.Api.Call.{uuid, vp_create, vp_get, vp_delete}
use xmiete.Api.Issuer.{Issuer}
use xmiete.Api.Program.{
  vp_request, verified_claims, Program, ◌>>=◌, ◌>>◌, write_json, decode, require, pass, reject_if,
  time_now, ask, fetch, update, fire_webhook, history_entry, complete,
}

-- The body of `ReceiveVpResponse`, whose presentation_submission is not looked at.
pub record VpResponse : Type 0 where
  pub vp_token : String
  pub state : String

-- json.Marshal of a request, and url.QueryEscape.
pub record Links : Type 0 where
  pub marshal : VpRequest → Option String
  pub query_escape : String → String

abbrev pub presented_metadata : String → Time → WalletMetadata
presented_metadata credential_id now = record {
  issuer = "";
  issuer_id = "";
  wallet_provider = "";
  credential_type = "";
  credential_format = "vc+sd-jwt";
  assurance_level = "high";
  presentation_id = credential_id;
  issuing_country = "";
  verified_at = format_rfc3339 now;
  expires_at = "";
}

-- The deposit with the metadata of a presentation.
abbrev pub presented : {A : Type 0} → String → Time → Deposit A → Deposit A
presented credential_id now d = record d {
  tenant = record d.tenant { wallet_metadata = some (presented_metadata credential_id now) };
}

module _ {A K P : Type 0} (s : Issuer A K P) where
  open s use {issuer_url}

  unfoldable pub create_vp_request : Links → String → Program A
  unfolding build_vp_request
  create_vp_request links id = complete do
    _ ← fetch id
    let response_uri = issuer_url ++ ("/v1/deposits/" ++ (id ++ "/vp-response"))
    session_id ← ask uuid
    nonce ← ask uuid
    created_at ← time_now
    now ← time_now
    let session = new_session id response_uri session_id nonce created_at now
    ask (vp_create session)
    let request = build_vp_request issuer_url response_uri session.nonce session.id
    request_json ← require (links.marshal request) 500 "failed to build vp_request" "INTERNAL_ERROR"
    let deep_link =
        "openid4vp://?client_id="
        ++ (links.query_escape issuer_url ++ ("&request=" ++ links.query_escape request_json))
    write_json 201 (vp_request session.id request deep_link session.expires_at)

  module _ ⦃F : Amount A⦄ where
    unfoldable pub receive_vp_response : String → String → Option VpResponse → Program A
    unfolding same_state
    receive_vp_response webhook_url id body = complete do
      req ← decode body
      reject_if (req.vp_token == "") 400 "vp_token is required" "VALIDATION_ERROR"
      reject_if (req.state == "") 400 "state is required" "VALIDATION_ERROR"
      fetched ← ask (vp_get req.state)
      session ← require fetched 404 "vp session not found or already consumed" "NOT_FOUND"
      t ← time_now
      reject_if (after t session.expires_at) 410 "vp session has expired" "SESSION_EXPIRED"
      deposit ← fetch id
      reject_if (not (same_state deposit.deposit.lifecycle_state pledged)) 409
          "vp presentation requires deposit in PLEDGED state" "INVALID_STATE"
      t1 ← time_now
      t2 ← time_now
      t3 ← time_now
      t4 ← time_now
      claims ←
          pass
            (verify_vp_token s.encoding s.jwt req.vp_token (s.jwt.public_key s.signer.key)
              session.nonce session.response_uri (t1, t2, t3, t4))
            422 "VP_VERIFICATION_FAILED"
      reject_if (not (claims.deposit_id == id)) 409
          "credential deposit_id does not match requested deposit" "DEPOSIT_MISMATCH"
      now ← time_now
      updated ←
          update id deposit.deposit.lifecycle_state
            (history_entry deposit.deposit.lifecycle_state "WALLET" "")
            λ d. some (presented claims.credential_id now d)
      ask (vp_delete session.id)
      fire_webhook webhook_url updated
      write_json 200 (verified_claims claims)
