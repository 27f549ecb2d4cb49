-- ===== src/Sdk/Eid/Updates.antt =====
-- The webhooks of sdk-examples/go/eid/webhook.go that start an update of a deposit.
use xmiete.Prelude.{
  String, Bool, true, false, ◌||◌, List, [], ◌∷◌, ◌==◌, arith, ◌≡◌, ◌≢◌, ◌↔◌, refl, sym, ap, ◌∙◌,
  inl, inr, any, if◌then◌else◌, eq_iff, Bool-cases,
}
use xmiete.Prelude.Results.{
  Result, good, bad, ◌>>◌, bind-good, fail_if-good, within-good, good_injective, not_differs,
  differs, not_equal,
}
use xmiete.Calendar.{Time}
use xmiete.Crypto.{Bytes}
use xmiete.Sdk.Eid.Service.{failed, expired, verified, WebhookEvent}
use xmiete.Sdk.Eid.Webhook.{
  Task, WebhookHandler, RawEvent, Inputs, statuses, or_time, dispatch, verify_hmac,
  parse_webhook_event, handled, handle_webhook,
}

or_false : (a b : Bool) → (a || b) ≡ false → (a ≡ false) × (b ≡ false)
or_false a b e = ground arith

module _ (I : Inputs) (h : WebhookHandler) where
  -- The signature is the HMAC of the body under the secret.
  abbrev pub IsGenuine : Bytes → String → String → Type 0
  IsGenuine body signature secret = (signature ≢ "") × (I.hmac_hex secret body ≡ signature)

  verify_hmac-IsGenuine :
      (body : Bytes) (signature secret : String)
      → (verify_hmac I body signature secret ≡ good tt) ↔ IsGenuine body signature secret
  unfolding verify_hmac
  verify_hmac-IsGenuine body signature secret = (
    (λ e.
        let (present, e1) = fail_if-good _ _ _ _ e in
        let (same, e2) = fail_if-good _ _ _ _ e1 in
        (differs signature "" present, not_differs (I.hmac_hex secret body) signature same)),
    (λ (present, same).
        rw (not_equal signature "" present, (eq_iff (I.hmac_hex secret body) signature).1 same)
          refl),
  )

  -- The event that a verified identity is reported by, and the update that is due.
  abbrev pub event_of : RawEvent → Time → WebhookEvent
  event_of raw now = record {
    session_id = raw.session_id;
    deposit_id = raw.deposit_id;
    status = raw.status;
    provider_reference = raw.provider_reference;
    completed_at =
        if raw.completed_at == "" then now else or_time now (I.parse_rfc3339 raw.completed_at);
    error_code = raw.error_code;
  }

  abbrev pub update_of : WebhookEvent → Task
  update_of event = record {
    event = event;
    payload = record {
      eid_status = verified;
      verification_timestamp = event.completed_at;
      provider_reference = event.provider_reference;
    };
  }

  -- The body reports a verified identity for a deposit.
  abbrev pub Reports : Bytes → Time → WebhookEvent → Type 0
  Reports body now event =
      (raw : RawEvent) × (I.unmarshal body ≡ good raw)
      × (raw.deposit_id ≢ "")
      × (raw.status ≡ verified)
      × (event ≡ event_of raw now)

  parse-Reports :
      (body : Bytes) (now : Time) (event : WebhookEvent)
      → parse_webhook_event I body now ≡ good event
      → event.status ≡ verified
      → Reports body now event
  unfolding parse_webhook_event
  parse-Reports body now event e is_verified =
      let (raw, read, e1) = bind-good _ _ _ e in
      let (complete, e2) = fail_if-good _ _ _ _ e1 in
      let (known, e3) = fail_if-good _ _ _ _ e2 in
      let same = good_injective _ event e3 in
      (
        raw,
        within-good _ _ _ read,
        differs raw.deposit_id "" (or_false (raw.deposit_id == "") (raw.status == "") complete).0,
        ap (λ (w : WebhookEvent). w.status) same ∙ is_verified,
        sym same,
      )

  Reports-parse :
      (body : Bytes) (now : Time) (event : WebhookEvent)
      → Reports body now event
      → parse_webhook_event I body now ≡ good event
  unfolding parse_webhook_event
  Reports-parse body now event (raw, read, present, is_verified, same) =
      let status_present : (raw.status == "") ≡ false = rw is_verified refl in
      let known : any (λ s. raw.status == s) statuses ≡ true = rw is_verified refl in
      rw (read, not_equal raw.deposit_id "" present, status_present, known) (ap good (sym same))

  started_by :
      (event : WebhookEvent) (task : Task)
      → (dispatch I h event).started ≡ task ∷ []
      → (event.status ≡ verified) × (task ≡ update_of event)
  unfolding dispatch
  started_by event task e = elim (Bool-cases (event.status == verified)) [
    | inl is_verified ↦
        ((eq_iff event.status verified).0 is_verified, let started = rw is_verified at e in cc)
    | inr other ↦ elim (Bool-cases (event.status == failed || event.status == expired)) [
      | inl final ↦ absurd (none_started (rw (other, final) at e))
      | inr idle ↦ absurd (none_started (rw (other, idle) at e))
    ]
  ]
    where
      none_started : ◌≡◌ {A = List Task} [] (task ∷ []) → ⊥
      none_started p = cc

  starts :
      (event : WebhookEvent)
      → event.status ≡ verified
      → (dispatch I h event).started ≡ update_of event ∷ []
  unfolding dispatch
  starts event e = let same = (eq_iff event.status verified).1 e in rw same refl

  Reports-status :
      (body : Bytes) (now : Time) (event : WebhookEvent)
      → Reports body now event
      → event.status ≡ verified
  Reports-status body now event (raw, _, _, is_verified, same) =
      ap (λ (w : WebhookEvent). w.status) same ∙ is_verified

  handled_event :
      (task : Task) (m : Result WebhookEvent)
      → (handled I h m).1.started ≡ task ∷ []
      → (event : WebhookEvent) × (m ≡ good event) × ((dispatch I h event).started ≡ task ∷ [])
  handled_event task (good event) e = (event, refl, e)
  handled_event task (bad x) e = absurd (none_started e)
    where
      none_started : ◌≡◌ {A = List Task} [] (task ∷ []) → ⊥
      none_started p = cc

  -- A webhook starts the update of a deposit exactly where its signature is the HMAC of its body
  -- under the secret and the body reports a verified identity for that deposit; and the update is
  -- that of the report.
  pub webhook_starts_iff :
      (body : Bytes) (signature secret : String) (now : Time) (task : Task)
      → ((handle_webhook I h body signature secret now).1.started ≡ task ∷ []) ↔ (
          IsGenuine body signature secret
          × (event : WebhookEvent) × Reports body now event
          × (task ≡ update_of event))
  unfolding handle_webhook
  webhook_starts_iff body signature secret now task = (
    (λ e.
        let (event, read, starts) =
          handled_event task (verify_hmac I body signature secret >> parse_webhook_event I body now)
            e in
        let (_, genuine, parsed) = bind-good _ _ _ read in
        let (is_verified, update) = started_by event task starts in
        (
          (verify_hmac-IsGenuine body signature secret).0 genuine,
          event,
          parse-Reports body now event parsed is_verified,
          update,
        )),
    (λ (genuine, event, reports, update).
        rw
          (
            (verify_hmac-IsGenuine body signature secret).1 genuine,
            Reports-parse body now event reports,
          )
          (starts event (Reports-status body now event reports) ∙ ap (λ t. t ∷ []) (sym update))),
  )
