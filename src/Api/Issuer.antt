-- ===== src/Api/Issuer.antt =====
-- The handlers of server/internal/api/issuer_handlers.go for the issuance of credentials and their
-- status, and that of server/internal/api/validate_handler.go.
use Prim.Native.String.{◌++◌}
use xmiete.Prelude.{String, Bool, true, false, not, ◌||◌, Option, [], ◌∷◌, ◌==◌}
use xmiete.Prelude.Results.{value_of}
use xmiete.Prelude.Split.{after_prefix}
use xmiete.Calendar.{after, format_rfc3339}
use xmiete.Amount.{Amount}
use xmiete.Models.{pledged, same_state, Deposit}
use xmiete.Crypto.{Encoding, Jwt}
use xmiete.Issuance.Credential.{Signer, build_sd_jwt}
use xmiete.Issuance.StatusList.{build_status_list_jwt}
use xmiete.Issuance.Metadata.{Coordinate, jwk, cred_config}
use xmiete.Validator.Checks.{validate}
use xmiete.Api.Call.{
  uuid, salts, allocate_index, create_session, session_by_id, session_by_token, exchange_code,
  consume_token, revoked_indices,
}
use xmiete.Api.Call
use xmiete.Api.Program.{
  report, offer_created, credential_offer, access_token, credential, credential_status, status_list,
  metadata, jwks, Program, ◌>>=◌, ◌>>◌, write_json, decode, require, reject_if, time_now, ask, load,
  fetch, complete,
}

-- The form of `Token`.
pub record TokenForm : Type 0 where
  pub grant_type : String
  pub pre_authorized_code : String

-- The body of `Credential`, whose proof is not looked at.
pub record CredentialRequest : Type 0 where
  pub format : String
  pub vct : String

pub record ValidateRequest (A : Type 0) : Type 0 where
  pub deposit : Deposit A
  pub monthly_rent : A

-- What the handlers need to sign and to encode: `issuerURL` of the server, and the signer.
pub record Issuer (A K P : Type 0) : Type 0 where
  pub issuer_url : String
  pub signer : Signer K
  pub encoding : Encoding A
  pub jwt : Jwt K P
  -- the coordinates of a public key
  pub coordinates : P → Coordinate × Coordinate

abbrev pub pre_auth_grant : String
pre_auth_grant = "urn:ietf:params:oauth:grant-type:pre-authorized_code"

abbrev pub status_text : Bool → String
status_text true = "revoked"
status_text false = "active"

module _ {A K P : Type 0} (s : Issuer A K P) where
  open s use {issuer_url}

  -- `valid_until` is what the body sets; a body that does not decode is ignored.
  unfoldable pub issue_credential : String → String → Program A
  unfolding same_state
  issue_credential id valid_until = complete do
    deposit ← fetch id
    reject_if (not (same_state deposit.deposit.lifecycle_state pledged)) 409
        "credential issuance requires deposit in PLEDGED state" "INVALID_STATE"
    allocated ← ask allocate_index
    index ← require allocated 500 "failed to allocate status list index" "INTERNAL_ERROR"
    created ← ask (create_session id valid_until index)
    session ← require created 500 "failed to create issuance session" "INTERNAL_ERROR"
    let offer_url =
        "openid-credential-offer://?credential_offer_uri="
        ++ (issuer_url ++ ("/v1/credential-offers/" ++ session.id))
    write_json 201 (offer_created session.id offer_url offer_url session.expires_at)

  unfoldable pub get_credential_offer : String → Program A
  get_credential_offer session_id = complete do
    fetched ← ask (session_by_id session_id)
    session ← require fetched 404 "offer not found or expired" "NOT_FOUND"
    now ← time_now
    reject_if (after now session.expires_at) 410 "offer has expired" "OFFER_EXPIRED"
    write_json 200
        (credential_offer issuer_url ("DepositPledgeAttestation" ∷ []) session.pre_authorized_code)

  -- `none` is a form that does not parse.
  unfoldable pub token : Option TokenForm → Program A
  token body = complete do
    form ← require body 400 "invalid form body" "BAD_REQUEST"
    reject_if (not (form.grant_type == pre_auth_grant)) 400
        "unsupported grant_type; only pre-authorized_code is supported" "UNSUPPORTED_GRANT_TYPE"
    reject_if (form.pre_authorized_code == "") 400 "pre-authorized_code is required"
        "INVALID_REQUEST"
    exchanged ← ask (exchange_code form.pre_authorized_code)
    pair ←
        require exchanged 400 "invalid, expired, or already-used pre-authorized_code"
          "INVALID_GRANT"
    write_json 200 (access_token pair.0 "Bearer" 300 pair.1 300)

  module _ ⦃F : Amount A⦄ where
    -- The arguments are the header Authorization and the body.
    unfoldable pub issue : String → Option CredentialRequest → Program A
    unfolding after_prefix
    issue authorization body = complete do
      bearer ←
          require (after_prefix "Bearer " authorization) 401 "Bearer token required" "UNAUTHORIZED"
      fetched ← ask (session_by_token bearer)
      session ← require fetched 401 "invalid or expired access token" "INVALID_TOKEN"
      t ← time_now
      reject_if (after t session.expires_at) 401 "invalid or expired access token" "INVALID_TOKEN"
      req ← decode body
      reject_if (not (req.format == "vc+sd-jwt") || not (req.vct == "DepositPledgeAttestation")) 400
          "unsupported credential format or type; use format=vc+sd-jwt vct=DepositPledgeAttestation"
          "UNSUPPORTED_CREDENTIAL_TYPE"
      deposit ← load session.deposit_id 500 "failed to load deposit" "INTERNAL_ERROR"
      fresh ← ask uuid
      now ← time_now
      read ← ask salts
      built ←
          require
            (value_of (
              build_sd_jwt s.encoding s.jwt s.signer issuer_url deposit session.valid_until
                session.status_list_index fresh now read))
            500 "credential signing failed" "SIGNING_ERROR"
      consumed ← ask (consume_token bearer built.1)
      _ ← require consumed 409 "session already consumed" "SESSION_CONSUMED"
      write_json 200 (credential built.0)

  unfoldable pub get_credential_status : String → Program A
  get_credential_status id = complete do
    answer ← ask (Call.credential_status id)
    revoked ← require answer 404 "credential not found" "NOT_FOUND"
    now ← time_now
    write_json 200 (credential_status id (status_text revoked) (format_rfc3339 now))

  unfoldable pub get_status_list : Program A
  get_status_list = complete do
    answer ← ask revoked_indices
    indices ← require answer 500 "failed to build status list" "INTERNAL_ERROR"
    now ← time_now
    signed ←
        require (value_of (build_status_list_jwt s.encoding s.jwt s.signer issuer_url indices now))
          500 "failed to sign status list" "INTERNAL_ERROR"
    write_json 200 (
        status_list (issuer_url ++ "/v1/status-list/revocation") "BitstringStatusListCredential"
          signed)

  module _ ⦃F : Amount A⦄ where
    unfoldable pub validate_document : Option (ValidateRequest A) → Program A
    validate_document body = complete do
      req ← decode body
      now ← time_now
      write_json 200 (report (validate s.encoding.quote req.deposit req.monthly_rent now))

  unfoldable pub issuer_metadata : Program A
  issuer_metadata = complete do
    write_json 200 (
        metadata (record {
          credential_issuer = issuer_url;
          credential_endpoint = issuer_url ++ "/v1/credential";
          token_endpoint = issuer_url ++ "/v1/token";
          jwks_uri = issuer_url ++ "/.well-known/jwks.json";
          credential_configurations_supported = ("DepositPledgeAttestation", cred_config) ∷ [];
        }))

  unfoldable pub get_jwks : Program A
  unfolding jwk
  get_jwks = complete do
    let point = s.coordinates (s.jwt.public_key s.signer.key)
    write_json 200 (jwks (jwk s.encoding.base64 s.signer.key_id point ∷ []))
