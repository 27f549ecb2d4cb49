-- ===== src/Sdk/Openid4vp/Models.antt =====
-- sdk-examples/go/openid4vp/models.go.
use xmiete.Prelude.{String, Bool, Option, List}
use xmiete.Prelude.Int.{ℤ}
use xmiete.Calendar.{Time}

pub record FieldFilter : Type 0 where
  pub type : String
  pub const : Option String

pub record Field : Type 0 where
  pub path : List String
  pub filter : Option FieldFilter
  pub is_optional : Bool

pub record Constraints : Type 0 where
  pub fields : List Field
  pub limit_disclosure : String

pub record FormatAlgs : Type 0 where
  pub alg : List String

pub record InputDescriptor : Type 0 where
  pub id : String
  pub format : List (String × FormatAlgs)
  pub constraints : Constraints

pub record PresentationDefinition : Type 0 where
  pub id : String
  pub input_descriptors : List InputDescriptor

pub record VpRequest : Type 0 where
  pub client_id : String
  pub response_type : String
  pub response_mode : String
  pub response_uri : String
  pub nonce : String
  pub state : String
  pub presentation_definition : PresentationDefinition

pub record VpRequestResult : Type 0 where
  pub nonce : String
  pub vp_request : VpRequest

pub record VerifiedClaims (A : Type 0) : Type 0 where
  pub credential_id : String
  pub deposit_id : String
  pub pledge_date : String
  pub statutory_basis : String
  pub issuing_bank : String
  pub deposit_amount : Option A
  pub currency : Option String
  pub property_address : Option String
  pub tenant_first_name : Option String
  pub tenant_last_name : Option String
  pub pledged_until : Option String
  pub verified_at : Time

-- The payload of the issuer's token. `exp` is in Unix seconds.
pub record IssuerClaims : Type 0 where
  pub credential_id : String
  pub deposit_id : String
  pub pledge_date : String
  pub statutory_basis : String
  pub issuing_bank : String
  pub sd_hashes : List String
  pub exp : ℤ
