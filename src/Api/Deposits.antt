-- ===== src/Api/Deposits.antt =====
-- The handlers of server/internal/api/handlers.go for the life of a deposit up to its release.
-- `webhook_url` is the server's field; a body is `none` where its JSON does not decode. The receipts
-- are made by `render` (server/internal/receipt over fpdf), which answers `none` for an error.
use Prim.Native.String.{◌++◌}
use xmiete.Prelude.{String, Bool, true, false, not, ◌||◌, Option, none, some, ◌==◌, if◌then◌else◌}
use xmiete.Amount.{Amount}
use xmiete.Models.{
  LifecycleState, requested, identified, funded, pledged, released, claimed, closed, other,
  state_text, Tenant, Deposit, IdentityUpdateRequest, PledgeRequest, ClaimRequest,
}
use xmiete.StateMachine.{state_for_identity_update}
use xmiete.Api.Program.{
  deposit, pdf, Program, Handler, branch, ◌>>=◌, ◌>>◌, write_json, write_error, decode, reject_if,
  fetch, check_transition, store, update, revoke, email_receipt, email_release_receipt,
  fire_webhook, history_entry, complete,
}

-- `if text == "" { text = value }`
abbrev pub default_to : String → String → String
default_to value text = if text == "" then value else text

-- The closure of `UpdateIdentity`, on the tenant.
abbrev pub identified_tenant : IdentityUpdateRequest → Tenant → Tenant
identified_tenant req t = record t {
  eid_status = req.eid_status;
  wallet_metadata = elim req.wallet_metadata [ none ↦ t.wallet_metadata | some w ↦ some w ];
}

-- The states in which a receipt is available.
abbrev pub has_receipt : LifecycleState → Bool
has_receipt requested = false
has_receipt identified = false
has_receipt funded = false
has_receipt (other _) = false
has_receipt _ = true

abbrev pub has_release_receipt : LifecycleState → Bool
has_release_receipt released = true
has_release_receipt closed = true
has_release_receipt _ = false

module _ {A : Type 0} ⦃F : Amount A⦄ where
  open F use {zero, le}

  unfoldable pub create_deposit : Option (Deposit A) → Program A
  create_deposit body = complete do
    d ← decode body
    reject_if (d.tenant.first_name == "" || d.tenant.last_name == "" || d.tenant.email == "") 400
        "tenant first_name, last_name and email are required" "VALIDATION_ERROR"
    reject_if (d.landlord.name == "") 400 "landlord name is required" "VALIDATION_ERROR"
    reject_if (le d.deposit.amount zero || d.deposit.type == "") 400
        "deposit amount and type are required" "VALIDATION_ERROR"
    created ← store (record d {
      meta = record d.meta { version = default_to "2.0.0" d.meta.version };
      deposit = record d.deposit { currency = default_to "EUR" d.deposit.currency };
    })
    write_json 201 (deposit created)

  unfoldable pub claim : String → String → Option (ClaimRequest A) → Program A
  claim webhook_url id body = complete do
    req ← decode body
    reject_if (le req.claim_amount zero || req.reason == "") 400
        "claim_amount and reason are required" "VALIDATION_ERROR"
    current ← fetch id
    check_transition current.deposit.lifecycle_state claimed
    updated ← update id claimed (history_entry claimed "LANDLORD" req.reason) (λ d. some d)
    fire_webhook webhook_url updated
    write_json 200 (deposit updated)

module _ {A : Type 0} where
  unfoldable pub serve_pdf : Option String → String → Handler A ⊥
  serve_pdf none message = write_error 500 message "INTERNAL_ERROR"
  serve_pdf (some bytes) message = write_json 200 (pdf bytes)

  unfoldable pub get_deposit : String → Program A
  get_deposit id = complete do d ← fetch id; write_json 200 (deposit d)

  unfoldable pub update_identity : String → String → Option IdentityUpdateRequest → Program A
  unfolding state_for_identity_update
  update_identity webhook_url id body = complete do
    req ← decode body
    reject_if (req.eid_status == "") 400 "eid_status is required" "VALIDATION_ERROR"
    current ← fetch id
    let next_state = (state_for_identity_update req.eid_status).0
    let transitions = (state_for_identity_update req.eid_status).1
    branch (not transitions) (write_json 200 (deposit current)) do
      check_transition current.deposit.lifecycle_state next_state
      updated ←
          update id next_state (history_entry next_state "IDENTITY_PROVIDER" "")
            λ d. some (record d { tenant = identified_tenant req d.tenant })
      fire_webhook webhook_url updated
      write_json 200 (deposit updated)

  unfoldable pub pledge : String → String → Option PledgeRequest → Program A
  pledge webhook_url id body = complete do
    req ← decode body
    reject_if (req.pledge_date == "" || not req.is_confirmed_by_bank) 400
        "pledge_date and is_confirmed_by_bank=true are required" "VALIDATION_ERROR"
    current ← fetch id
    check_transition current.deposit.lifecycle_state pledged
    updated ← update id pledged (history_entry pledged "BANK" "") λ d. some (record d {
      pledge = some (record {
        pledge_date = req.pledge_date;
        statutory_basis = "BGB § 551";
        is_confirmed_by_bank = true;
      });
    })
    fire_webhook webhook_url updated
    email_receipt updated
    write_json 200 (deposit updated)

  -- The body is decoded, and neither it nor its error is used.
  unfoldable pub release : String → String → Program A
  release webhook_url id = complete do
    current ← fetch id
    check_transition current.deposit.lifecycle_state released
    updated ← update id released (history_entry released "LANDLORD" "") (λ d. some d)
    revoke id
    fire_webhook webhook_url updated
    email_release_receipt updated
    write_json 200 (deposit updated)

  module _ (render : Deposit A → Option String) where
    unfoldable pub get_receipt : String → Program A
    get_receipt id = complete do
      d ← fetch id
      reject_if (not (has_receipt d.deposit.lifecycle_state)) 409
          ("receipt not available in state "
            ++ (state_text d.deposit.lifecycle_state ++ " — deposit must be PLEDGED first"))
          "RECEIPT_NOT_AVAILABLE"
      serve_pdf (render d) "failed to generate receipt"

    unfoldable pub get_release_receipt : String → Program A
    get_release_receipt id = complete do
      d ← fetch id
      reject_if (not (has_release_receipt d.deposit.lifecycle_state)) 409
          ("release receipt not available in state "
            ++ (state_text d.deposit.lifecycle_state ++ " — deposit must be RELEASED first"))
          "RELEASE_RECEIPT_NOT_AVAILABLE"
      serve_pdf (render d) "failed to generate release receipt"
