-- ===== src/Api/Program.antt =====
-- What a handler of server/internal/api does: it calls the interfaces db.Repository,
-- issuance.SessionStore and mailer.Mailer, posts webhooks, and replies. A handler is a tree of such
-- calls, with a branch for each answer; Api/Run.antt runs it. The calls for
-- credentials are those of Api/Call.antt.
use xmiete.Prelude.{ℕ, String, Bool, true, false, Option, none, some, List, ◌==◌, if◌then◌else◌}
use xmiete.Calendar.{Time}
use xmiete.Models.{LifecycleState, HistoryEntry, Deposit, WebhookEvent}
use xmiete.StateMachine.{transition, error_text}
use xmiete.Prelude.Results.{Result, good, bad}
use xmiete.Validator.Report.{Report}
use xmiete.Verification.{VpRequest}
use xmiete.Verification.Token.{VerifiedClaims}
use xmiete.Issuance.Metadata.{Metadata, Jwk}
use xmiete.Api.Call.{Call, Answer}

pub data Body (A : Type 0) : Type 0 where
  -- models.ErrorResponse: the message and the code
  error : String → String → Body A
  deposit : Deposit A → Body A
  pdf : String → Body A
  report : Report → Body A
  -- the session, the URL of the offer, the same for the QR code, and the end of the session
  offer_created : String → String → String → Time → Body A
  -- the issuer, the configurations and the code
  credential_offer : String → List String → String → Body A
  -- access_token, token_type, expires_in, c_nonce and c_nonce_expires_in
  access_token : String → String → ℕ → String → ℕ → Body A
  credential : String → Body A
  -- the credential, its status and the time
  credential_status : String → String → String → Body A
  -- the identifier, the type and the credential
  status_list : String → String → String → Body A
  -- the session, the request, the link and the end of the session
  vp_request : String → VpRequest → String → Time → Body A
  verified_claims : VerifiedClaims A → Body A
  metadata : Metadata → Body A
  jwks : List Jwk → Body A

pub record Response (A : Type 0) : Type 0 where
  pub status : ℕ
  pub body : Body A

-- The answer of `GetByID`.
pub data Fetched (A : Type 0) : Type 0 where
  found : Deposit A → Fetched A
  missing broken : Fetched A

pub data Program (A : Type 0) : Type 0 where
  reply : Response A → Program A
  -- a nil dereference
  panic : Program A
  now : (Time → Program A) → Program A
  call : (c : Call) → (Answer c → Program A) → Program A
  -- `none` answers an error
  create : Deposit A → (Option (Deposit A) → Program A) → Program A
  get_by_id : String → (Fetched A → Program A) → Program A
  update_state :
      String
      → LifecycleState
      → HistoryEntry
      → (Deposit A → Option (Deposit A))
      → (Option (Deposit A) → Program A)
      → Program A
  revoke_by_deposit_id : String → Program A → Program A
  post_webhook : WebhookEvent → Program A → Program A
  send_receipt : Deposit A → Program A → Program A
  send_release_receipt : Deposit A → Program A → Program A

-- A part of a handler: what it does before the rest. A part that replies drops the rest, as an
-- early `return` does.
abbrev pub Handler : Type 0 → Type 0 → Type 0
Handler A R = (R → Program A) → Program A

module _ {A : Type 0} where
  abbrev pub error_response : ℕ → String → String → Response A
  error_response status message code = record { status = status; body = error message code }

module _ {A R T : Type 0} where
  infixl 5 ◌>>=◌
  abbrev pub ◌>>=◌ : Handler A R → (R → Handler A T) → Handler A T
  ◌>>=◌ m f k = m (λ r. f r k)

infixl 5 ◌>>◌
abbrev pub ◌>>◌ : {A T : Type 0} → Handler A (Unit {0}) → Handler A T → Handler A T
m >> n = m >>= λ _. n

module _ {A R : Type 0} where
  abbrev pub give : R → Handler A R
  give r k = k r

  abbrev pub write_json : ℕ → Body A → Handler A R
  write_json status body k = reply (record { status = status; body = body })

  abbrev pub write_error : ℕ → String → String → Handler A R
  write_error status message code k = reply (error_response status message code)

  -- A body that does not decode is answered by 400.
  unfoldable pub decode : Option R → Handler A R
  decode none k = reply (error_response 400 "invalid JSON" "BAD_REQUEST")
  decode (some req) k = k req

  -- An early return if the value is nil, or absent after an error.
  unfoldable pub require : Option R → ℕ → String → String → Handler A R
  require none status message code k = reply (error_response status message code)
  require (some r) status message code k = k r

  -- `if` between two parts.
  unfoldable pub branch : Bool → Handler A R → Handler A R → Handler A R
  branch true m n k = m k
  branch false m n k = n k

  -- An early return with the text of an error.
  unfoldable pub pass : Result R → ℕ → String → Handler A R
  pass (good r) status code k = k r
  pass (bad e) status code k = reply (error_response status e code)

  unfoldable pub deref : Option R → Handler A R
  deref none k = panic
  deref (some r) k = k r

module _ {A : Type 0} where
  unfoldable pub reject_if : Bool → ℕ → String → String → Handler A (Unit {0})
  reject_if test status message code k =
      if test then reply (error_response status message code) else k tt

  unfoldable pub time_now : Handler A Time
  time_now k = now k

  -- A call, with the rest of the handler for its answer.
  unfoldable pub ask : (c : Call) → Handler A (Answer c)
  ask c k = call c k

  -- `GetByID` with one reply to its errors.
  unfoldable pub load : String → ℕ → String → String → Handler A (Deposit A)
  load id status message code k = get_by_id id λ answer. elim answer [
    | found d ↦ k d
    | missing ↦ reply (error_response status message code)
    | broken ↦ reply (error_response status message code)
  ]

  -- `GetByID` with the two replies that every handler gives to its errors.
  unfoldable pub fetch : String → Handler A (Deposit A)
  fetch id k = get_by_id id λ answer. elim answer [
    | found d ↦ k d
    | missing ↦ reply (error_response 404 "deposit not found" "NOT_FOUND")
    | broken ↦ reply (error_response 500 "failed to fetch deposit" "INTERNAL_ERROR")
  ]

  -- `statemachine.Transition` with the reply to its error.
  unfoldable pub check_transition : LifecycleState → LifecycleState → Handler A (Unit {0})
  check_transition from to k = elim (transition from to).1 [
    | none ↦ k tt
    | some e ↦ reply (error_response 409 (error_text e) "INVALID_TRANSITION")
  ]

  -- `UpdateState` with the reply to its error.
  unfoldable pub update :
      String
      → LifecycleState
      → HistoryEntry
      → (Deposit A → Option (Deposit A))
      → Handler A (Deposit A)
  update id state entry patch k = update_state id state entry patch λ answer. elim answer [
    | some d ↦ k d
    | none ↦ reply (error_response 500 "failed to update deposit" "INTERNAL_ERROR")
  ]

  -- `Create` with the reply to its error.
  unfoldable pub store : Deposit A → Handler A (Deposit A)
  store d k = create d λ answer. elim answer [
    | some created ↦ k created
    | none ↦ reply (error_response 500 "failed to create deposit" "INTERNAL_ERROR")
  ]

  unfoldable pub revoke : String → Handler A (Unit {0})
  revoke id k = revoke_by_deposit_id id (k tt)

  unfoldable pub email_receipt : Deposit A → Handler A (Unit {0})
  email_receipt d k = send_receipt d (k tt)

  unfoldable pub email_release_receipt : Deposit A → Handler A (Unit {0})
  email_release_receipt d k = send_release_receipt d (k tt)

  -- The event is posted asynchronously, and only if a URL is set.
  unfoldable pub fire_webhook : String → Deposit A → Handler A (Unit {0})
  fire_webhook webhook_url d k =
      if webhook_url == ""
      then k tt
      else now λ t.
        post_webhook
          (record {
            event_type = "deposit.status_changed";
            deposit_id = d.id;
            new_state = d.deposit.lifecycle_state;
            timestamp = t;
            credential_offer_url = "";
          })
          (k tt)

-- models.HistoryEntry with the fields that the handlers set.
abbrev pub history_entry : LifecycleState → String → String → HistoryEntry
history_entry state actor comment = record {
  state = state;
  timestamp = 0;
  actor = actor;
  comment = comment;
  signature = "";
}

-- Every path of a handler replies.
abbrev pub complete : {A : Type 0} → Handler A ⊥ → Program A
complete m = m (λ e. absurd e)
