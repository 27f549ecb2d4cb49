-- ===== src/Models/Document.antt =====
-- The deposit document: `Deposit`, with its data and its history.
use xmiete.Prelude.{String, Option, List}
use xmiete.Calendar.{Time}
use xmiete.Models.State.{LifecycleState}
use xmiete.Models.Party.{
  InstallmentPlan, Meta, Tenant, Landlord, Property, Pledge, Trusteeship, Provider,
}
use xmiete.Models.Transport.{Transport}
use xmiete.Models.Negotiation.{Settlement, UtilityReservation}

abbrev pub DepositType : Type 0
DepositType = String

abbrev pub cash_equivalent : DepositType
cash_equivalent = "CASH_EQUIVALENT"

abbrev pub bank_guarantee : DepositType
bank_guarantee = "BANK_GUARANTEE"

abbrev pub insurance : DepositType
insurance = "INSURANCE"

pub record HistoryEntry : Type 0 where
  pub state : LifecycleState
  pub timestamp : Time
  pub actor : String
  pub comment : String
  pub signature : String

pub record DepositData (A : Type 0) : Type 0 where
  pub amount : A
  pub currency : String
  pub type : DepositType
  pub lifecycle_state : LifecycleState
  pub history : List HistoryEntry
  pub installment_plan : Option (InstallmentPlan A)

pub record Deposit (A : Type 0) : Type 0 where
  pub id : String
  pub meta : Meta
  pub tenant : Tenant
  pub landlord : Landlord
  pub property : Property
  pub deposit : DepositData A
  pub pledge : Option Pledge
  pub trusteeship : Option (Trusteeship A)
  pub provider : Option Provider
  pub transport : Option Transport
  pub settlement : Option (Settlement A)
  pub utility_reservation : Option (UtilityReservation A)
