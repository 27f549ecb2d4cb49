-- ===== src/Api/Utility.antt =====
-- The handlers of server/internal/api/handlers.go for a partial release with a reservation for the
-- utility costs: PartialRelease and UtilitySettle.
use Prim.Native.String.{◌++◌}
use mathlib.Core.Option
use xmiete.Prelude.{String, not, ◌||◌, Option, some, [], ◌∷◌, ◌==◌, if◌then◌else◌}
use xmiete.Calendar.{Time, date_of, add_date, format_date, parse_date}
use xmiete.Amount.{Amount}
use xmiete.Models.{
  partially_released, settle_proposed, closed, state_text, same_state, utility_arrears,
  UtilityReservation, Settlement, Deposit, PartialReleaseRequest, UtilitySettleRequest,
}
use xmiete.Api.Program.{
  deposit, Program, branch, ◌>>=◌, ◌>>◌, write_json, require, decode, reject_if, time_now, fetch,
  check_transition, update, fire_webhook, history_entry, complete,
}
use xmiete.Api.Settlement.{empty_settlement, response_deadline}

module _ {A : Type 0} ⦃F : Amount A⦄ where
  open F use {zero, sub, le, lt, format_2f}

  unfoldable pub partial_release : String → String → Option (PartialReleaseRequest A) → Program A
  partial_release webhook_url id body = complete do
    req ← decode body
    reject_if (lt req.released_amount zero || le req.reserved_amount zero) 400
        "released_amount must be ≥ 0 and reserved_amount must be > 0" "VALIDATION_ERROR"
    reject_if (req.billing_period_end == "") 400 "billing_period_end is required" "VALIDATION_ERROR"
    billing_end ←
        require (parse_date req.billing_period_end) 400
          "billing_period_end must be ISO 8601 date (YYYY-MM-DD)" "VALIDATION_ERROR"
    current ← fetch id
    check_transition current.deposit.lifecycle_state partially_released
    let reservation : UtilityReservation A = record {
      released_amount = req.released_amount;
      reserved_amount = req.reserved_amount;
      monthly_advance = req.monthly_advance;
      billing_period_end = req.billing_period_end;
      resolution_deadline = format_date (add_date 1 0 billing_end);
      settlement_ref = "";
      actual_cost = zero;
      total_advance_paid = zero;
      resolved_at = "";
    }
    updated ←
        update id partially_released (history_entry partially_released "LANDLORD" "")
          λ d. some (record d { utility_reservation = some reservation })
    fire_webhook webhook_url updated
    write_json 200 (deposit updated)

  abbrev pub reconciled :
      UtilitySettleRequest A → Time → Deposit A → UtilityReservation A → Deposit A
  reconciled req now d u = record d {
    utility_reservation = some (record u {
      settlement_ref = req.settlement_ref;
      actual_cost = req.actual_cost;
      total_advance_paid = req.total_advance_paid;
      resolved_at = format_date (date_of now);
    });
  }

  -- The outcome of the reconciliation, written through the pointer to the reservation.
  abbrev pub reconcile : UtilitySettleRequest A → Time → Deposit A → Option (Deposit A)
  reconcile req now d = Option.map (reconciled req now d) d.utility_reservation

  -- The landlord keeps the shortfall, and at most what is reserved.
  unfoldable pub retention : A → A → A
  retention shortfall reserved = if lt reserved shortfall then reserved else shortfall

  -- The settlement that `UtilitySettle` proposes.
  unfoldable pub utility_settlement : UtilitySettleRequest A → Time → A → Settlement A
  unfolding retention
  utility_settlement req now reserved =
      let shortfall = sub req.actual_cost req.total_advance_paid in
      let kept = retention shortfall reserved in
      record empty_settlement {
        initiated_by = "LANDLORD";
        initiated_at = now;
        last_proposed_by = "LANDLORD";
        last_proposed_at = now;
        claim_items =
            record {
              id = "item-1";
              category = utility_arrears;
              description =
                  "Utility shortfall: actual cost "
                  ++ (format_2f req.actual_cost
                      ++ (", advances paid " ++ format_2f req.total_advance_paid));
              amount_claimed = shortfall;
              evidence_refs = if req.settlement_ref == "" then [] else req.settlement_ref ∷ [];
              room_or_area = "";
            }
            ∷ [];
        total_claimed = shortfall;
        proposed_tenant_refund = sub reserved kept;
        proposed_landlord_retention = kept;
        response_deadline = response_deadline now;
      }

  unfoldable pub utility_settle : String → String → Option (UtilitySettleRequest A) → Program A
  unfolding same_state
  utility_settle webhook_url id body = complete do
    req ← decode body
    reject_if (lt req.actual_cost zero || lt req.total_advance_paid zero) 400
        "actual_cost and total_advance_paid must be non-negative" "VALIDATION_ERROR"
    current ← fetch id
    reject_if (not (same_state current.deposit.lifecycle_state partially_released)) 409
        ("utility-settle requires state PARTIALLY_RELEASED, current state is "
          ++ state_text current.deposit.lifecycle_state)
        "INVALID_TRANSITION"
    reservation ←
        require current.utility_reservation 409 "no utility reservation on this deposit" "CONFLICT"
    now ← time_now
    updated ←
        branch (le (sub req.actual_cost req.total_advance_paid) zero)
          (do
            check_transition partially_released closed
            update id closed
                (history_entry closed "LANDLORD" "utility reconciliation — no shortfall")
                (reconcile req now))
          (do
            check_transition partially_released settle_proposed
            let settlement = utility_settlement req now reservation.reserved_amount
            update id settle_proposed
                (history_entry settle_proposed "LANDLORD" "utility reconciliation shortfall")
                λ d. reconcile req now (record d { settlement = some settlement }))
    fire_webhook webhook_url updated
    write_json 200 (deposit updated)
