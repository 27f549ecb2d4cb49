-- ===== src/Tests/SdkBank.antt =====
-- A bearer token and a webhook, as a bank that uses the SDK receives them.
use xmiete.Prelude.{ℕ, ◌*◌, true, none, [], ◌∷◌, ◌≡◌, ◌↔◌, refl, eqb}
use xmiete.Prelude.Int.{pos}
use xmiete.Prelude.Results.{good}
use xmiete.Calendar.{second}
use xmiete.Sdk.Auth.{
  TokenClaims, valid, Reading, OidcTokenValidator, new_oidc_token_validator, validate_token,
}
use xmiete.Sdk.Auth.Grants.{Grants, validate_token_iff}
use xmiete.Sdk.Eid.{WebhookEvent}
use xmiete.Sdk.Eid.Webhook.{WebhookHandler, RawEvent, Inputs, Task, handle_webhook}
use xmiete.Sdk.Eid.Updates.{IsGenuine, Reports, event_of, update_of, webhook_starts_iff}

abbrev reading : Reading ℕ
reading = record {
  unbase64 = λ s. good [];
  payload = λ b. good (record {
    sub = "bank";
    iss = "https://id.example";
    scope = "deposit:read deposit:write";
    exp = 62135596900;
  });
  is_zero = λ n. eqb n 0;
  seconds = λ n. pos n;
  quote = λ s. s;
}

abbrev validator : OidcTokenValidator
validator = record {
  jwks_uri = "https://id.example/.well-known/jwks.json";
  expected_issuer = "https://id.example";
}

discovered :
    new_oidc_token_validator "https://id.example/.well-known/openid-configuration" ≡ validator
unfolding new_oidc_token_validator
discovered = refl

abbrev claims : TokenClaims
claims = record {
  subject = "bank";
  issuer = "https://id.example";
  scopes = "deposit:write" ∷ "deposit:read" ∷ [];
  expires_at = pos 62135596900;
}

validate_token_iff_example :
    (validate_token reading validator "Bearer h.p.s" ("deposit:read" ∷ []) (5 * second)
      ≡ valid claims)
    ↔ Grants reading validator "Bearer h.p.s" ("deposit:read" ∷ []) (5 * second) claims
validate_token_iff_example =
    validate_token_iff reading validator "Bearer h.p.s" ("deposit:read" ∷ []) (5 * second) claims

passes :
    validate_token reading validator "Bearer h.p.s" ("deposit:read" ∷ []) (5 * second)
    ≡ valid claims
unfolding validate_token
passes = refl

abbrev report : RawEvent
report = record {
  session_id = "s";
  deposit_id = "u";
  status = "VERIFIED";
  provider_reference = "r";
  completed_at = "";
  error_code = "";
}

abbrev inputs : Inputs
inputs = record {
  hmac_hex = λ secret body. secret;
  unmarshal = λ b. good report;
  parse_rfc3339 = λ s. none;
  quote = λ s. s;
}

abbrev handler : WebhookHandler
handler = record { bearer_token = "t"; has_on_complete = true }

abbrev task : Task
task = update_of inputs handler (event_of inputs handler report (5 * second))

webhook_starts_iff_example :
    ((handle_webhook inputs handler [] "secret" "secret" (5 * second)).1.started ≡ task ∷ []) ↔ (
      IsGenuine inputs handler [] "secret" "secret"
      × (event : WebhookEvent) × Reports inputs handler [] (5 * second) event
      × (task ≡ update_of inputs handler event))
webhook_starts_iff_example =
    webhook_starts_iff inputs handler [] "secret" "secret" (5 * second) task

starts : (handle_webhook inputs handler [] "secret" "secret" (5 * second)).1.started ≡ task ∷ []
unfolding handle_webhook
starts = refl
