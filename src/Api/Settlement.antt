-- ===== src/Api/Settlement.antt =====
-- The handlers of server/internal/api/handlers.go for the settlement between the parties and its
-- escalation: Settle, SettleAccept, Dispute, DisputeResolve.
use Prim.Native.String.{◌++◌}
use mathlib.Core.Option
use xmiete.Prelude.{
  ℕ, suc, String, Bool, true, false, not, ◌||◌, ◌&&◌, Option, none, some, List, [], ◌∷◌, is_empty,
  any, ◌==◌, if◌then◌else◌,
}
use xmiete.Prelude.Decimal.{decimal_text}
use xmiete.Calendar.{Time, date_of, add_date, format_date}
use xmiete.Amount.{Amount}
use xmiete.Models.{
  pledged, funded, settle_proposed, disputed, closed, state_text, same_state, ClaimItem, Settlement,
  Deposit, SettleRequest, ClaimItemInput, SettleAcceptRequest, DisputeRequest,
  DisputeResolveRequest,
}
use xmiete.Api.Program.{
  deposit, Program, Handler, branch, ◌>>=◌, ◌>>◌, give, write_json, require, decode, deref,
  reject_if, time_now, fetch, check_transition, update, revoke, fire_webhook, history_entry,
  complete,
}

-- The tests `x != "LANDLORD" && x != "TENANT"`.
abbrev pub is_party : String → Bool
is_party x = x == "LANDLORD" || x == "TENANT"

abbrev pub is_escalation : String → Bool
is_escalation x = x == "PLATFORM_MEDIATION" || x == "SCHLICHTUNGSBEHOERDE" || x == "AMTSGERICHT"

-- `now.AddDate(0, 0, 14).Format("2006-01-02")`
unfoldable pub response_deadline : Time → String
response_deadline t = format_date (add_date 0 14 (date_of t))

module _ {A : Type 0} ⦃F : Amount A⦄ where
  open F use {zero, add, le, lt}

  -- The loop of `Settle` that tests each item.
  unfoldable pub has_bad_item : List (ClaimItemInput A) → Bool
  has_bad_item = any λ item. le item.amount_claimed zero || item.description == ""

  -- The loop of `Settle` over the items, from the index `i` and the sum so far.
  unfoldable pub number_items : ℕ → List (ClaimItemInput A) → List (ClaimItem A)
  number_items i [] = []
  number_items i (inp ∷ rest) =
      record {
        id = "item-" ++ decimal_text (suc i);
        category = inp.category;
        description = inp.description;
        amount_claimed = inp.amount_claimed;
        evidence_refs = inp.evidence_refs;
        room_or_area = inp.room_or_area;
      }
      ∷ number_items (suc i) rest

  unfoldable pub sum_claimed : A → List (ClaimItemInput A) → A
  sum_claimed total [] = total
  sum_claimed total (inp ∷ rest) = sum_claimed (add total inp.amount_claimed) rest

  -- `&models.Settlement{}`
  abbrev pub empty_settlement : Settlement A
  empty_settlement = record {
    initiated_by = "";
    initiated_at = 0;
    last_proposed_by = "";
    last_proposed_at = 0;
    tenancy_end_date = "";
    handover_date = "";
    handover_protocol_ref = "";
    claim_items = [];
    total_claimed = zero;
    proposed_tenant_refund = zero;
    proposed_landlord_retention = zero;
    response_deadline = "";
    escalation_type = "";
    external_authority = "";
    external_reference = "";
    agreed_tenant_refund = zero;
    agreed_landlord_retention = zero;
  }

  abbrev pub own_proposal : String → Option (Settlement A) → Bool
  own_proposal party none = false
  own_proposal party (some s) = s.last_proposed_by == party

  -- Who began the negotiation, and when: a counter-proposal takes both from the settlement.
  unfoldable pub origin : Bool → String → Time → Option (Settlement A) → Handler A (String × Time)
  origin true party now s = give (party, now)
  origin false party now s = do old ← deref s; give (old.initiated_by, old.initiated_at)

  unfoldable pub proposal : SettleRequest A → Time → String × Time → Settlement A
  proposal req now begun = record empty_settlement {
    initiated_by = begun.0;
    initiated_at = begun.1;
    last_proposed_by = req.initiated_by;
    last_proposed_at = now;
    tenancy_end_date = req.tenancy_end_date;
    handover_date = req.handover_date;
    handover_protocol_ref = req.handover_protocol_ref;
    claim_items = number_items 0 req.claim_items;
    total_claimed = sum_claimed zero req.claim_items;
    proposed_tenant_refund = req.proposed_tenant_refund;
    proposed_landlord_retention = req.proposed_landlord_retention;
    response_deadline = response_deadline now;
  }

  unfoldable pub settle : String → String → Option (SettleRequest A) → Program A
  unfolding same_state
  settle webhook_url id body = complete do
    req ← decode body
    reject_if (not (is_party req.initiated_by)) 400 "initiated_by must be LANDLORD or TENANT"
        "VALIDATION_ERROR"
    reject_if (is_empty req.claim_items) 400 "claim_items must not be empty" "VALIDATION_ERROR"
    reject_if (has_bad_item req.claim_items) 400
        "each claim item requires description and amount_claimed > 0" "VALIDATION_ERROR"
    current ← fetch id
    let state = current.deposit.lifecycle_state
    let is_first_proposal = same_state state pledged || same_state state funded
    let is_counter = same_state state settle_proposed
    reject_if (not is_first_proposal && not is_counter) 409
        ("cannot propose settlement in state " ++ state_text state) "INVALID_TRANSITION"
    reject_if (is_counter && own_proposal req.initiated_by current.settlement) 409
        "cannot counter your own proposal — wait for the other party to respond" "CONFLICT"
    now ← time_now
    begun ← origin is_first_proposal req.initiated_by now current.settlement
    let settlement = proposal req now begun
    let entry =
        history_entry settle_proposed req.initiated_by
          (if is_counter then "counter-proposal" else "")
    let patch = λ (d : Deposit A). some (record d { settlement = some settlement })
    updated ←
        branch is_first_proposal
          (do check_transition state settle_proposed; update id settle_proposed entry patch)
          (update id settle_proposed entry patch)
    fire_webhook webhook_url updated
    write_json 200 (deposit updated)

  abbrev pub agreed : Deposit A → Settlement A → Deposit A
  agreed d s = record d {
    settlement = some (record s {
      agreed_tenant_refund = s.proposed_tenant_refund;
      agreed_landlord_retention = s.proposed_landlord_retention;
    });
  }

  -- The closure of `SettleAccept`, which writes through the pointer to the settlement.
  abbrev pub agree : Deposit A → Option (Deposit A)
  agree d = Option.map (agreed d) d.settlement

  unfoldable pub settle_accept : String → String → Option SettleAcceptRequest → Program A
  unfolding same_state
  settle_accept webhook_url id body = complete do
    req ← decode body
    reject_if (not (is_party req.accepted_by)) 400 "accepted_by must be LANDLORD or TENANT"
        "VALIDATION_ERROR"
    current ← fetch id
    reject_if (not (same_state current.deposit.lifecycle_state settle_proposed)) 409
        ("cannot accept settlement in state " ++ state_text current.deposit.lifecycle_state)
        "INVALID_TRANSITION"
    s ← require current.settlement 409 "no active settlement proposal" "CONFLICT"
    reject_if (s.last_proposed_by == req.accepted_by) 409 "cannot accept your own proposal"
        "CONFLICT"
    check_transition settle_proposed closed
    updated ← update id closed (history_entry closed req.accepted_by "settlement accepted") agree
    revoke id
    fire_webhook webhook_url updated
    write_json 200 (deposit updated)

  -- `if d.Settlement == nil { d.Settlement = &models.Settlement{} }`
  abbrev pub settlement_of : Deposit A → Settlement A
  settlement_of d = elim d.settlement [ none ↦ empty_settlement | some s ↦ s ]

  unfoldable pub dispute : String → String → Option DisputeRequest → Program A
  dispute webhook_url id body = complete do
    req ← decode body
    reject_if (not (is_party req.escalated_by)) 400 "escalated_by must be LANDLORD or TENANT"
        "VALIDATION_ERROR"
    reject_if (not (is_escalation req.escalation_type)) 400
        "escalation_type must be PLATFORM_MEDIATION, SCHLICHTUNGSBEHOERDE, or AMTSGERICHT"
        "VALIDATION_ERROR"
    current ← fetch id
    check_transition current.deposit.lifecycle_state disputed
    updated ← update id disputed (history_entry disputed req.escalated_by req.escalation_type) λ d.
        some (record d {
          settlement = some (record (settlement_of d) {
            escalation_type = req.escalation_type;
            external_authority = req.escalation_type;
            external_reference = req.external_reference;
          });
        })
    fire_webhook webhook_url updated
    write_json 200 (deposit updated)

  unfoldable pub dispute_resolve : String → String → Option (DisputeResolveRequest A) → Program A
  dispute_resolve webhook_url id body = complete do
    req ← decode body
    reject_if (lt req.agreed_tenant_refund zero || lt req.agreed_landlord_retention zero) 400
        "agreed amounts must be non-negative" "VALIDATION_ERROR"
    current ← fetch id
    check_transition current.deposit.lifecycle_state closed
    updated ← update id closed (history_entry closed "EXTERNAL" req.resolution_reference) λ d.
        some (record d {
          settlement = some (record (settlement_of d) {
            agreed_tenant_refund = req.agreed_tenant_refund;
            agreed_landlord_retention = req.agreed_landlord_retention;
            external_reference = req.resolution_reference;
          });
        })
    revoke id
    fire_webhook webhook_url updated
    write_json 200 (deposit updated)
