-- ===== src/Tests/Amounts.antt =====
-- The proposals of a settlement and of a reconciliation, on amounts in thousandths.
use xmiete.Prelude.{ℕ, ◌-◌, ◌≡◌, false, ltb, arith}
use xmiete.Models.{UtilitySettleRequest}
use xmiete.Api.Utility.{utility_settlement}
use xmiete.Api.Amounts.{retention_within_reservation}
use xmiete.Tests.Data.{thousandths}

ltb-irreflexive : (n : ℕ) → ltb n n ≡ false
ltb-irreflexive n = ground arith

-- Costs of 900 after advances of 600, with 200 reserved.
abbrev reconciliation : UtilitySettleRequest ℕ
reconciliation = record {
  settlement_ref = "bill";
  actual_cost = 900000;
  total_advance_paid = 600000;
}

retention_within_reservation_example :
    (ltb 200000 (utility_settlement reconciliation 0 200000).proposed_landlord_retention ≡ false)
    × ((utility_settlement reconciliation 0 200000).proposed_tenant_refund
        ≡ 200000 - (utility_settlement reconciliation 0 200000).proposed_landlord_retention)
retention_within_reservation_example =
    retention_within_reservation ltb-irreflexive reconciliation 0 200000
