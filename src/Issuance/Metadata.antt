-- ===== src/Issuance/Metadata.antt =====
-- What the issuer publishes of itself: the types that IssuerMetadata and JWKS of
-- server/internal/api/issuer_handlers.go write, and what they hold. A Go map is an association list.
use xmiete.Prelude.{
  ℕ, zero, suc, ◌+◌, ◌-◌, ◌*◌, ◌≤◌, ◌≡◌, refl, arith, String, Bool, true, false, List, [], ◌∷◌,
  ◌++◌,
}
use xmiete.Crypto.{Bytes}

pub record Display : Type 0 where
  pub name : String
  pub locale : String
  pub description : String

pub record ClaimMeta : Type 0 where
  pub display : List Display
  pub is_mandatory : Bool
  pub is_sd : Bool

pub record CredConfig : Type 0 where
  pub format : String
  pub vct : String
  pub scope : String
  pub cryptographic_binding_methods : List String
  pub credential_signing_alg_values : List String
  pub proof_types_supported : List (String × List String)
  pub display : List Display
  pub claims : List (String × ClaimMeta)

pub record Metadata : Type 0 where
  pub credential_issuer : String
  pub credential_endpoint : String
  pub token_endpoint : String
  pub jwks_uri : String
  pub credential_configurations_supported : List (String × CredConfig)

abbrev german : String → List Display
german name = record { name = name; locale = "de-DE"; description = "" } ∷ []

abbrev claim : String → Bool → Bool → ClaimMeta
claim name is_mandatory is_sd = record {
  display = german name;
  is_mandatory = is_mandatory;
  is_sd = is_sd;
}

abbrev pub claim_metas : List (String × ClaimMeta)
claim_metas =
    ("deposit_amount", claim "Kautionsbetrag" true true)
    ∷ ("currency", claim "Währung" true true)
    ∷ ("pledge_date", claim "Verpfändungsdatum" true false)
    ∷ ("pledged_until", claim "Verpfändet bis" false true)
    ∷ ("statutory_basis", claim "Rechtsgrundlage" true false)
    ∷ ("issuing_bank", claim "Ausstellende Bank" true false)
    ∷ ("property_address", claim "Mietobjekt-Adresse" false true)
    ∷ ("tenant_first_name", claim "Vorname Mieter" false true)
    ∷ ("tenant_last_name", claim "Nachname Mieter" false true)
    ∷ []

abbrev pub cred_config : CredConfig
cred_config = record {
  format = "vc+sd-jwt";
  vct = "DepositPledgeAttestation";
  scope = "DepositPledgeAttestation";
  cryptographic_binding_methods = "did:key" ∷ "jwk" ∷ [];
  credential_signing_alg_values = "ES256" ∷ [];
  proof_types_supported = ("jwt", "ES256" ∷ "RS256" ∷ []) ∷ [];
  display =
      record {
        name = "Deposit Pledge Attestation";
        locale = "de-DE";
        description = "Bestätigung einer rechtssicheren Mietkautionsverpfändung nach BGB § 551";
      }
      ∷ record {
        name = "Deposit Pledge Attestation";
        locale = "en-US";
        description = "Confirmation of a legally binding rental deposit pledge under BGB § 551";
      }
      ∷ [];
  claims = claim_metas;
}

pub record Jwk : Type 0 where
  pub kty : String
  pub crv : String
  pub kid : String
  pub use_for : String
  pub alg : String
  pub x : String
  pub y : String

abbrev pub size : Bytes → ℕ
size [] = 0
size (b ∷ bs) = suc (size bs)

abbrev zero_bytes : ℕ → Bytes
zero_bytes zero = []
zero_bytes (suc n) = 0 ∷ zero_bytes n

-- A coordinate of P-256 as big.Int.Bytes gives it, most significant byte first and at most 32.
pub record Coordinate : Type 0 where
  pub big_endian : Bytes
  pub fits : size big_endian ≤ 32

-- The 32 bytes that the coordinate is copied to the end of.
unfoldable pub padded : Coordinate → Bytes
padded c = zero_bytes (32 - size c.big_endian) ++ c.big_endian

-- The key that is published, from base64url, its identifier and its two coordinates.
unfoldable pub jwk : (Bytes → String) → String → Coordinate × Coordinate → Jwk
unfolding padded
jwk base64 key_id point = record {
  kty = "EC";
  crv = "P-256";
  kid = key_id;
  use_for = "sig";
  alg = "ES256";
  x = base64 (padded point.0);
  y = base64 (padded point.1);
}

-- The number that bytes stand for, most significant byte first, after what was read.
abbrev pub value : ℕ → Bytes → ℕ
value n [] = n
value n (b ∷ bs) = value (n * 256 + b) bs

size-zero_bytes : (n : ℕ) (bs : Bytes) → size (zero_bytes n ++ bs) ≡ n + size bs
size-zero_bytes zero bs = ground arith
size-zero_bytes (suc n) bs = ground (arith, size-zero_bytes n bs)

value-zero_bytes : (n : ℕ) (bs : Bytes) → value 0 (zero_bytes n ++ bs) ≡ value 0 bs
value-zero_bytes zero bs = refl
value-zero_bytes (suc n) bs = value-zero_bytes n bs

-- What is encoded of a coordinate has 32 bytes and stands for the same number.
pub padded-value :
    (c : Coordinate) → (size (padded c) ≡ 32) × (value 0 (padded c) ≡ value 0 c.big_endian)
unfolding padded
padded-value c = (
  omega (arith, size-zero_bytes (32 - size c.big_endian) c.big_endian, c.fits),
  value-zero_bytes (32 - size c.big_endian) c.big_endian,
)
