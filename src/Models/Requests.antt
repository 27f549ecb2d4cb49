-- ===== src/Models/Requests.antt =====
-- The bodies of the requests, of an error reply and of a webhook.
use xmiete.Prelude.{String, Bool, Option, List}
use xmiete.Calendar.{Time}
use xmiete.Models.State.{LifecycleState}
use xmiete.Models.Party.{EidStatus, WalletMetadata}
use xmiete.Models.Negotiation.{ClaimCategory}

pub record IdentityUpdateRequest : Type 0 where
  pub eid_status : EidStatus
  pub verification_timestamp : String
  pub provider_reference : String
  pub wallet_metadata : Option WalletMetadata

pub record PledgeRequest : Type 0 where
  pub pledge_date : String
  pub is_confirmed_by_bank : Bool
  pub provider_reference : String

pub record ReleaseRequest (A : Type 0) : Type 0 where
  pub release_type : String
  pub release_amount : A
  pub landlord_signature_token : String

pub record ClaimRequest (A : Type 0) : Type 0 where
  pub claim_amount : A
  pub reason : String
  pub evidence_urls : List String

pub record ClaimItemInput (A : Type 0) : Type 0 where
  pub category : ClaimCategory
  pub description : String
  pub amount_claimed : A
  pub evidence_refs : List String
  pub room_or_area : String

pub record SettleRequest (A : Type 0) : Type 0 where
  pub initiated_by : String
  pub tenancy_end_date : String
  pub handover_date : String
  pub handover_protocol_ref : String
  pub claim_items : List (ClaimItemInput A)
  pub proposed_tenant_refund : A
  pub proposed_landlord_retention : A

pub record SettleAcceptRequest : Type 0 where
  pub accepted_by : String

pub record DisputeRequest : Type 0 where
  pub escalated_by : String
  pub escalation_type : String
  pub external_reference : String
  pub statement : String

pub record DisputeResolveRequest (A : Type 0) : Type 0 where
  pub agreed_tenant_refund : A
  pub agreed_landlord_retention : A
  pub resolution_reference : String

pub record PartialReleaseRequest (A : Type 0) : Type 0 where
  pub released_amount : A
  pub reserved_amount : A
  pub monthly_advance : A
  pub billing_period_end : String

pub record UtilitySettleRequest (A : Type 0) : Type 0 where
  pub settlement_ref : String
  pub actual_cost : A
  pub total_advance_paid : A

pub record ErrorResponse : Type 0 where
  pub error : String
  pub code : String

pub record WebhookEvent : Type 0 where
  pub event_type : String
  pub deposit_id : String
  pub new_state : LifecycleState
  pub timestamp : Time
  pub credential_offer_url : String

pub record IssueCredentialRequest : Type 0 where
  pub valid_until : String

pub record IssueCredentialResponse : Type 0 where
  pub session_id : String
  pub credential_offer_url : String
  pub qr_code_payload : String
  pub expires_at : Time
