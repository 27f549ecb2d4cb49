-- ===== src/Models/Negotiation.antt =====
-- The settlement between the parties, its items, and the reservation for utility costs.
use xmiete.Prelude.{String, List}
use xmiete.Calendar.{Time}

abbrev pub ClaimCategory : Type 0
ClaimCategory = String

abbrev pub rent_arrears : ClaimCategory
rent_arrears = "RENT_ARREARS"

abbrev pub utility_arrears : ClaimCategory
utility_arrears = "UTILITY_ARREARS"

abbrev pub damage : ClaimCategory
damage = "DAMAGE"

abbrev pub cleaning : ClaimCategory
cleaning = "CLEANING"

abbrev pub cosmetic_repairs : ClaimCategory
cosmetic_repairs = "COSMETIC_REPAIRS"

abbrev pub unauthorized_alterations : ClaimCategory
unauthorized_alterations = "UNAUTHORIZED_ALTERATIONS"

abbrev pub missing_items : ClaimCategory
missing_items = "MISSING_ITEMS"

abbrev pub other_claim : ClaimCategory
other_claim = "OTHER"

pub record UtilityReservation (A : Type 0) : Type 0 where
  pub released_amount : A
  pub reserved_amount : A
  pub monthly_advance : A
  pub billing_period_end : String
  pub resolution_deadline : String
  pub settlement_ref : String
  pub actual_cost : A
  pub total_advance_paid : A
  pub resolved_at : String

pub record ClaimItem (A : Type 0) : Type 0 where
  pub id : String
  pub category : ClaimCategory
  pub description : String
  pub amount_claimed : A
  pub evidence_refs : List String
  pub room_or_area : String

pub record Settlement (A : Type 0) : Type 0 where
  pub initiated_by : String
  pub initiated_at : Time
  pub last_proposed_by : String
  pub last_proposed_at : Time
  pub tenancy_end_date : String
  pub handover_date : String
  pub handover_protocol_ref : String
  pub claim_items : List (ClaimItem A)
  pub total_claimed : A
  pub proposed_tenant_refund : A
  pub proposed_landlord_retention : A
  pub response_deadline : String
  pub escalation_type : String
  pub external_authority : String
  pub external_reference : String
  pub agreed_tenant_refund : A
  pub agreed_landlord_retention : A
