-- ===== src/Models/Party.antt =====
-- The parties, the property, the pledge and the trust account of a deposit.
use xmiete.Prelude.{String, Bool, Option, List}
use xmiete.Prelude.Int.{ℤ}
use xmiete.Calendar.{Time}

abbrev pub EidStatus : Type 0
EidStatus = String

abbrev pub eid_not_started : EidStatus
eid_not_started = "NOT_STARTED"

abbrev pub eid_in_progress : EidStatus
eid_in_progress = "IN_PROGRESS"

abbrev pub eid_verified : EidStatus
eid_verified = "VERIFIED"

abbrev pub eid_failed : EidStatus
eid_failed = "FAILED"

abbrev pub TrustAccountType : Type 0
TrustAccountType = String

abbrev pub treuhandkonto : TrustAccountType
treuhandkonto = "TREUHANDKONTO"

abbrev pub anderkonto : TrustAccountType
anderkonto = "ANDERKONTO"

abbrev pub pooled_treuhand : TrustAccountType
pooled_treuhand = "POOLED_TREUHAND"

pub record Address : Type 0 where
  pub street : String
  pub zip : String
  pub city : String
  pub country : String

pub record WalletMetadata : Type 0 where
  pub issuer : String
  pub issuer_id : String
  pub wallet_provider : String
  pub credential_type : String
  pub credential_format : String
  pub assurance_level : String
  pub presentation_id : String
  pub issuing_country : String
  pub verified_at : String
  pub expires_at : String

pub record Tenant : Type 0 where
  pub first_name : String
  pub last_name : String
  pub email : String
  pub tax_id : String
  pub eid_status : EidStatus
  pub wallet_metadata : Option WalletMetadata
  pub address : Option Address

pub record Landlord : Type 0 where
  pub name : String
  pub type : String
  pub iban : String

pub record Property : Type 0 where
  pub address : Address
  pub unit_id : String

pub record Pledge : Type 0 where
  pub pledge_date : String
  pub statutory_basis : String
  pub is_confirmed_by_bank : Bool

pub record InterestRateEntry (A : Type 0) : Type 0 where
  pub rate : A
  pub effective_from : String
  pub effective_to : String

pub record Trusteeship (A : Type 0) : Type 0 where
  pub account_type : TrustAccountType
  pub trustee_entity : String
  pub trust_account_iban : String
  pub insolvency_protection_confirmed : Bool
  pub insolvency_protection_confirmed_date : String
  pub statutory_basis : String
  pub interest_rate : A
  pub interest_rate_history : List (InterestRateEntry A)
  pub accrued_interest : A
  pub interest_calculated_at : String
  pub total_balance : A

pub record Provider : Type 0 where
  pub provider_type : String
  pub executing_entity : String
  pub brand_name : String
  pub provider_id : String
  pub insurance_policy_number : String

pub record Meta : Type 0 where
  pub version : String
  pub timestamp : Time
  pub external_id : String

pub record InstallmentScheduleEntry (A : Type 0) : Type 0 where
  pub installment_number : ℤ
  pub due_date : String
  pub paid_date : String
  pub amount : A

pub record InstallmentPlan (A : Type 0) : Type 0 where
  pub total_installments : ℤ
  pub installment_amount : A
  pub schedule : List (InstallmentScheduleEntry A)
