-- ===== src/Sdk/Eid/Webhook.antt =====
-- sdk-examples/go/eid/webhook.go. What a handler does is the list of its effects in their order;
-- a goroutine is a task, which runs later with the answer of the service.
use Prim.Native.String.{◌++◌}
use xmiete.Prelude.{
  String, Bool, not, ◌||◌, Option, none, some, List, [], ◌∷◌, ◌==◌, ◌++◌ as append, if◌then◌else◌,
  any,
}
use xmiete.Prelude.Results.{Result, good, bad, ◌>>=◌, ◌>>◌, fail_if, within}
use xmiete.Calendar.{Time}
use xmiete.Crypto.{Bytes}
use xmiete.Sdk.Eid.Service.{
  EidStatus, not_started, pending, verified, failed, expired, KycUpdatePayload, WebhookEvent,
}

pub data Effect : Type 0 where
  update_kyc : String → KycUpdatePayload → String → Effect
  logged : String → Effect
  completed : WebhookEvent → Effect

pub record Task : Type 0 where
  pub event : WebhookEvent
  pub payload : KycUpdatePayload

pub record Work : Type 0 where
  pub done : List Effect
  pub started : List Task

abbrev pub no_work : Work
no_work = record { done = []; started = [] }

-- Its service answers the tasks.
pub record WebhookHandler : Type 0 where
  pub bearer_token : String
  pub has_on_complete : Bool

pub record RawEvent : Type 0 where
  pub session_id : String
  pub deposit_id : String
  pub status : String
  pub provider_reference : String
  pub completed_at : String
  pub error_code : String

-- The HMAC with SHA-256 of a body under a secret, in hexadecimal; json.Unmarshal; time.Parse for
-- RFC3339; and fmt's `%q`.
pub record Inputs : Type 0 where
  pub hmac_hex : String → Bytes → String
  pub unmarshal : Bytes → Result RawEvent
  pub parse_rfc3339 : String → Option Time
  pub quote : String → String

abbrev pub on_complete : WebhookHandler → WebhookEvent → List Effect
on_complete h event = if h.has_on_complete then completed event ∷ [] else []

abbrev pub failure_log : String → Result (Unit {0}) → List Effect
failure_log deposit_id (good _) = []
failure_log deposit_id (bad e) =
    logged ("eid: kyc update failed for deposit " ++ (deposit_id ++ (": " ++ e))) ∷ []

-- The body of the goroutine, for the service's answer.
unfoldable pub run_task : WebhookHandler → Task → Result (Unit {0}) → List Effect
run_task h task answer =
    update_kyc task.event.deposit_id task.payload h.bearer_token
    ∷ append (failure_log task.event.deposit_id answer) (on_complete h task.event)

abbrev pub statuses : List EidStatus
statuses = not_started ∷ pending ∷ verified ∷ failed ∷ expired ∷ []

abbrev pub or_time : Time → Option Time → Time
or_time now none = now
or_time now (some t) = t

module _ (I : Inputs) where
  open I use {hmac_hex, unmarshal, parse_rfc3339, quote}

  unfoldable pub dispatch : WebhookHandler → WebhookEvent → Work
  dispatch h event =
      if event.status == verified
      then record {
        done = [];
        started =
            record {
              event = event;
              payload = record {
                eid_status = verified;
                verification_timestamp = event.completed_at;
                provider_reference = event.provider_reference;
              };
            }
            ∷ [];
      }
      else if event.status == failed || event.status == expired
      then record {
        done =
            logged (
              "eid: verification "
              ++ (event.status
                  ++ (" for deposit "
                      ++ (event.deposit_id ++ (" (error: " ++ (quote event.error_code ++ ")"))))))
            ∷ on_complete h event;
        started = [];
      }
      else no_work

  unfoldable pub verify_hmac : Bytes → String → String → Result (Unit {0})
  verify_hmac body signature secret = do
    fail_if (signature == "") "eid: missing X-Signature header"
    fail_if (not (hmac_hex secret body == signature)) "eid: HMAC signature mismatch"
    good tt

  -- `now` is the answer of time.Now.
  unfoldable pub parse_webhook_event : Bytes → Time → Result WebhookEvent
  parse_webhook_event body now = do
    raw ← within "eid: parse webhook body: " (unmarshal body)
    fail_if (raw.deposit_id == "" || raw.status == "")
        "eid: webhook missing required fields: deposit_id, status"
    fail_if (not (any (λ s. raw.status == s) statuses))
        ("eid: unknown status value: " ++ quote raw.status)
    good (record {
      session_id = raw.session_id;
      deposit_id = raw.deposit_id;
      status = raw.status;
      provider_reference = raw.provider_reference;
      completed_at =
          if raw.completed_at == "" then now else or_time now (parse_rfc3339 raw.completed_at);
      error_code = raw.error_code;
    })

  abbrev pub handled : WebhookHandler → Result WebhookEvent → Result (Unit {0}) × Work
  handled h (good event) = (good tt, dispatch h event)
  handled h (bad e) = (bad e, no_work)

  unfoldable pub handle_webhook :
      WebhookHandler → Bytes → String → String → Time → Result (Unit {0}) × Work
  unfolding verify_hmac parse_webhook_event dispatch
  handle_webhook h body signature secret now =
      handled h (do verify_hmac body signature secret; parse_webhook_event body now)
