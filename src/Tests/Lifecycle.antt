-- ===== src/Tests/Lifecycle.antt =====
-- A deposit that is posted, identified, pledged, and settled after a counter-proposal. The tenant
-- may not accept the own counter-proposal.
use xmiete.Prelude.{ℕ, ◌-◌, ◌*◌, ◌≡◌, ◌≢◌, refl, String, none, some, List, [], ◌∷◌, All, true}
use xmiete.Calendar.{second, format_date, add_date, date_of, civil, day_number}
use xmiete.Prelude.Decimal.{decimal_text}
use xmiete.Api.Lifecycle.Run.{AllLawful}
use xmiete.Models.{
  LifecycleState, requested, identified, pledged, settle_proposed, funded, closed, Deposit,
  HistoryEntry, SettleRequest,
}
use xmiete.Repository
use xmiete.Repository.View.{view}
use xmiete.Issuance.Postgres.{postgres_sessions, revoke_by_deposit_id}
use xmiete.StateMachine.{state_for_identity_update, transition}
use xmiete.Api.Program.{
  decode, require, reject_if, branch, deref, time_now, fetch, check_transition, store, update,
  revoke, email_receipt, fire_webhook,
}
use xmiete.Api.Deposits.{create_deposit, update_identity, pledge}
use xmiete.Api.Settlement.{
  settle, settle_accept, origin, proposal, response_deadline, number_items, sum_claimed,
  has_bad_item,
}
use xmiete.Api.Run.{run}
use xmiete.Api.Server.{
  Request, handle, serve, post_deposits, patch_identity, post_pledge, post_settle,
  post_settle_accept,
}
use xmiete.Api.Lifecycle.Trail.{IsLawful}
use xmiete.Api.Lifecycle.Serve.{IsAnswered, serve_answers, served-IsLawful, never_funded}
use xmiete.Tests.Wallet.{server}
use xmiete.Tests.Data.{thousandths, host, json, posted, start}

-- A proposal to keep an amount for the cleaning.
abbrev pub proposed : String → ℕ → SettleRequest ℕ
proposed party amount = record {
  initiated_by = party;
  tenancy_end_date = "2026-06-30";
  handover_date = "";
  handover_protocol_ref = "";
  claim_items =
      record {
        category = "CLEANING";
        description = "cleaning";
        amount_claimed = amount;
        evidence_refs = [];
        room_or_area = "";
      }
      ∷ [];
  proposed_tenant_refund = 1500000 - amount;
  proposed_landlord_retention = amount;
}

abbrev requests : List (Request ℕ)
requests =
    post_deposits (some posted)
    ∷ patch_identity "u" (
        some (record {
          eid_status = "VERIFIED";
          verification_timestamp = "";
          provider_reference = "";
          wallet_metadata = none;
        }))
    ∷ post_pledge "u" (
        some (record {
          pledge_date = "2026-01-01";
          is_confirmed_by_bank = true;
          provider_reference = "";
        }))
    ∷ post_settle "u" (some (proposed "LANDLORD" 300000))
    ∷ post_settle "u" (some (proposed "TENANT" 100000))
    ∷ post_settle_accept "u" (some (record { accepted_by = "TENANT" }))
    ∷ post_settle_accept "u" (some (record { accepted_by = "LANDLORD" }))
    ∷ []

abbrev pub entry : LifecycleState → ℕ → String → String → HistoryEntry
entry state seconds actor comment = record {
  state = state;
  timestamp = seconds * second;
  actor = actor;
  comment = comment;
  signature = "";
}

-- The document that the requests leave.
abbrev pub left : Deposit ℕ
left = record posted {
  id = "u";
  meta = record posted.meta { timestamp = second };
  tenant = record posted.tenant { eid_status = "VERIFIED" };
  deposit = record posted.deposit {
    lifecycle_state = closed;
    history =
        entry requested 1 "TENANT" ""
        ∷ entry identified 7 "IDENTITY_PROVIDER" ""
        ∷ entry pledged 14 "BANK" ""
        ∷ entry settle_proposed 22 "LANDLORD" ""
        ∷ entry settle_proposed 30 "TENANT" "counter-proposal"
        ∷ entry closed 38 "LANDLORD" "settlement accepted"
        ∷ [];
  };
  pledge = some (record {
    pledge_date = "2026-01-01";
    statutory_basis = "BGB § 551";
    is_confirmed_by_bank = true;
  });
  settlement = some (record {
    initiated_by = "LANDLORD";
    initiated_at = 19 * second;
    last_proposed_by = "TENANT";
    last_proposed_at = 27 * second;
    tenancy_end_date = "2026-06-30";
    handover_date = "";
    handover_protocol_ref = "";
    claim_items =
        record {
          id = "item-1";
          category = "CLEANING";
          description = "cleaning";
          amount_claimed = 100000;
          evidence_refs = [];
          room_or_area = "";
        }
        ∷ [];
    total_claimed = 100000;
    proposed_tenant_refund = 1400000;
    proposed_landlord_retention = 100000;
    response_deadline = "0001-01-15";
    escalation_type = "";
    external_authority = "";
    external_reference = "";
    agreed_tenant_refund = 1400000;
    agreed_landlord_retention = 100000;
  });
}

served : view json (serve server json postgres_sessions requests host 0 start).2.db "u" ≡ some left
unfolding serve handle create_deposit update_identity pledge settle settle_accept origin proposal
    response_deadline number_items sum_claimed has_bad_item deref time_now revoke
    revoke_by_deposit_id run decode require reject_if branch fetch check_transition store update
    email_receipt fire_webhook transition state_for_identity_update Repository.create
    Repository.get_by_id Repository.update_state Repository.select_data view decimal_text
    format_date add_date date_of civil day_number
served = refl

pub no_documents : (id : String) → view json start.db id ≡ none
unfolding view Repository.select_data
no_documents id = refl

start-AllLawful : AllLawful json start.db
start-AllLawful = record { lawful = λ id d v. cc (no_documents id, v) }

served-IsLawful_example : IsLawful left
served-IsLawful_example =
    served-IsLawful server json postgres_sessions host requests 0 start no_documents "u" left served

never_funded_example : left.deposit.lifecycle_state ≢ funded
never_funded_example =
    never_funded server json postgres_sessions host requests 0 start no_documents "u" left served

serve_answers_example : All IsAnswered (serve server json postgres_sessions requests host 0 start).0
serve_answers_example =
    serve_answers server json postgres_sessions host requests 0 start start-AllLawful
