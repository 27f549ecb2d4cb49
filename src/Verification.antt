-- ===== src/Verification.antt =====
-- The presentation of a credential by a wallet: server/internal/verification/vp.go. The child Token
-- checks a token; the children RoundTrip and Accepted are about the tokens that it accepts.
pub mod Keyed
pub mod Token
pub mod Parts
pub mod RoundTrip
pub mod Issued
pub mod Accepted
use xmiete.Prelude.{
  String, Bool, false, true, Option, none, some, List, [], ◌∷◌, ◌+◌, ◌*◌, ◌==◌, if◌then◌else◌,
  lookup, erase, put,
}
use xmiete.Calendar.{Time, minute}

pub record VpSession : Type 0 where
  pub id : String
  pub deposit_id : String
  pub nonce : String
  pub response_uri : String
  pub created_at : Time
  pub expires_at : Time

-- The map of `Store`, newest session first.
abbrev pub VpSessions : Type 0
VpSessions = List (String × VpSession)

-- The session that `Create` makes, from the answers of uuid.NewString and time.Now in order.
abbrev pub new_session : String → String → String → String → Time → Time → VpSession
new_session deposit_id response_uri id nonce created_at now = record {
  id = id;
  deposit_id = deposit_id;
  nonce = nonce;
  response_uri = response_uri;
  created_at = created_at;
  expires_at = now + 10 * minute;
}

abbrev pub create : VpSession → VpSessions → VpSessions
create session store = put session.id session store

abbrev pub get_by_id : String → VpSessions → Option VpSession
get_by_id id store = lookup id store

abbrev pub delete : String → VpSessions → VpSessions
delete id store = erase id store

pub record FieldFilter : Type 0 where
  pub type : String
  pub const : String

pub record Field : Type 0 where
  pub path : List String
  pub filter : Option FieldFilter
  pub is_optional : Bool

pub record Constraints : Type 0 where
  pub fields : List Field
  pub limit_disclosure : String

-- The algorithms of each format.
pub record InputDescriptor : Type 0 where
  pub id : String
  pub format : List (String × List String)
  pub constraints : Constraints

pub record PresentationDefinition : Type 0 where
  pub id : String
  pub input_descriptors : List InputDescriptor

pub record VpRequest : Type 0 where
  pub client_id : String
  pub response_type : String
  pub response_mode : String
  pub response_uri : String
  pub nonce : String
  pub state : String
  pub presentation_definition : PresentationDefinition

abbrev required_field : String → Field
required_field path = record { path = path ∷ []; filter = none; is_optional = false }

abbrev pub requested_fields : List Field
requested_fields =
    record {
      path = "$.vct" ∷ [];
      filter = some (record { type = "string"; const = "DepositPledgeAttestation" });
      is_optional = false;
    }
    ∷ required_field "$.deposit_id"
    ∷ required_field "$.pledge_date"
    ∷ required_field "$.statutory_basis"
    ∷ required_field "$.issuing_bank"
    ∷ required_field "$.deposit_amount"
    ∷ record { path = "$.pledged_until" ∷ []; filter = none; is_optional = true }
    ∷ []

unfoldable pub build_vp_request : String → String → String → String → VpRequest
build_vp_request client_id response_uri nonce state = record {
  client_id = client_id;
  response_type = "vp_token";
  response_mode = "direct_post";
  response_uri = response_uri;
  nonce = nonce;
  state = state;
  presentation_definition = record {
    id = "deposit-pledge-attestation-pd";
    input_descriptors =
        record {
          id = "deposit-pledge-attestation";
          format = ("vc+sd-jwt", "ES256" ∷ []) ∷ [];
          constraints = record { fields = requested_fields; limit_disclosure = "required" };
        }
        ∷ [];
  };
}
