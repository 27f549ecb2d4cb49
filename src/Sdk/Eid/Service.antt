-- ===== src/Sdk/Eid/Service.antt =====
-- sdk-examples/go/eid/models.go and service.go.
use Prim.Native.String.{◌++◌}
use xmiete.Prelude.{ℕ, ◌+◌, ◌*◌, String, not, ◌&&◌, List, [], ◌∷◌, ◌==◌, eqb, if◌then◌else◌}
use xmiete.Prelude.Decimal.{decimal_text}
use xmiete.Prelude.Results.{Result, good, bad, ◌>>=◌, ◌>>◌, fail_if}
use xmiete.Calendar.{Time, minute, format_rfc3339}
use xmiete.Crypto.{Bytes}

abbrev pub EidStatus : Type 0
EidStatus = String

abbrev pub not_started : EidStatus
not_started = "NOT_STARTED"

abbrev pub pending : EidStatus
pending = "PENDING"

abbrev pub verified : EidStatus
verified = "VERIFIED"

abbrev pub failed : EidStatus
failed = "FAILED"

abbrev pub expired : EidStatus
expired = "EXPIRED"

pub record VerificationRequest : Type 0 where
  pub deposit_id : String
  pub tenant_email : String
  pub redirect_uri : String
  pub client_id : String

pub record VerificationSession : Type 0 where
  pub session_id : String
  pub authorization_url : String
  pub expires_at : Time

pub record KycUpdatePayload : Type 0 where
  pub eid_status : EidStatus
  pub verification_timestamp : Time
  pub provider_reference : String

pub record WebhookEvent : Type 0 where
  pub session_id : String
  pub deposit_id : String
  pub status : EidStatus
  pub provider_reference : String
  pub completed_at : Time
  pub error_code : String

-- net/http: a request, and what comes of it. Its headers are in the order in which they are set.
pub record HttpRequest : Type 0 where
  pub method : String
  pub url : String
  pub headers : List (String × String)
  pub body : String

pub data HttpAnswer : Type 0 where
  not_built : String → HttpAnswer
  not_sent : String → HttpAnswer
  answered : ℕ → Bytes → HttpAnswer

-- The fields that InitiateVerification decodes, which stay empty where the JSON does not have them.
pub record SessionReply : Type 0 where
  pub session_id : String
  pub authorization_url : String

-- fmt's `%q`, the HTTP client, and the decoder of a reply.
pub record Outside : Type 0 where
  pub quote : String → String
  pub exchange : HttpRequest → HttpAnswer
  pub session_reply : Bytes → SessionReply

pub record VerificationService : Type 0 where
  pub eid_provider_base_url : String
  pub xmiete_api_base_url : String

-- The status and the body of an answer, or the error with its prefixes.
abbrev pub response : String → String → HttpAnswer → Result (ℕ × Bytes)
response building sending (not_built e) = bad (building ++ e)
response building sending (not_sent e) = bad (sending ++ e)
response building sending (answered status body) = good (status, body)

module _ (O : Outside) (s : VerificationService) where
  open O use {quote, exchange, session_reply}

  abbrev pub session_request : VerificationRequest → HttpRequest
  session_request req = record {
    method = "POST";
    url = s.eid_provider_base_url ++ "/sessions";
    headers = ("Content-Type", "application/json") ∷ [];
    body =
        "{\"client_id\":"
        ++ (quote req.client_id
            ++ (",\"deposit_id\":"
                ++ (quote req.deposit_id
                    ++ (",\"tenant_email\":"
                        ++ (quote req.tenant_email
                            ++ (",\"redirect_uri\":"
                                ++ (quote req.redirect_uri ++ ",\"scope\":\"openid eid\"}")))))));
  }

  abbrev pub or_default : String → String → String
  or_default t default = if t == "" then default else t

  unfoldable pub initiate_verification : VerificationRequest → Time → Result VerificationSession
  initiate_verification req now = do
    reply ←
        response "eid: build session request: " "eid: provider request: "
          (exchange (session_request req))
    fail_if (not (eqb reply.0 201)) ("eid: provider returned HTTP " ++ decimal_text reply.0)
    let result = session_reply reply.1
    good (record {
      session_id = or_default result.session_id (req.deposit_id ++ "-session");
      authorization_url =
          or_default result.authorization_url
            (s.eid_provider_base_url ++ ("/authorize?deposit_id=" ++ req.deposit_id));
      expires_at = now + 15 * minute;
    })

  abbrev pub kyc_request : String → KycUpdatePayload → String → HttpRequest
  kyc_request deposit_id payload bearer_token = record {
    method = "PATCH";
    url = s.xmiete_api_base_url ++ ("/deposits/" ++ (deposit_id ++ "/identity"));
    headers =
        ("Content-Type", "application/json") ∷ ("Authorization", "Bearer " ++ bearer_token) ∷ [];
    body =
        "{\"eid_status\":"
        ++ (quote payload.eid_status
            ++ (",\"verification_timestamp\":"
                ++ (quote (format_rfc3339 payload.verification_timestamp)
                    ++ (",\"provider_reference\":" ++ (quote payload.provider_reference ++ "}")))));
  }

  unfoldable pub update_deposit_kyc_status : String → KycUpdatePayload → String → Result (Unit {0})
  update_deposit_kyc_status deposit_id payload bearer_token = do
    reply ←
        response "eid: build kyc request: " "eid: xmiete api request: "
          (exchange (kyc_request deposit_id payload bearer_token))
    fail_if (not (eqb reply.0 200) && not (eqb reply.0 204))
        ("eid: kyc update failed: HTTP " ++ decimal_text reply.0)
    good tt
