-- ===== src/Crypto.antt =====
-- What the server takes from golang-jwt, crypto and encoding: signed tokens, hashes, base64url and
-- JSON arrays. The claims are those that the server writes and reads.
use xmiete.Prelude.{ℕ, ◌≡◌, String, true, false, Option, some, List, ◌==◌}
use xmiete.Prelude.Results.{Result, good}
use xmiete.Prelude.Split.{has_sign, tilde}
use xmiete.Calendar.{Time, after}

-- A slice of bytes.
abbrev pub Bytes : Type 0
Bytes = List ℕ

-- An element of a decoded JSON array: `other` is neither a number nor a text.
pub data Json (A : Type 0) : Type 0 where
  number : A → Json A
  text : String → Json A
  other : Json A

pub record Encoding (A : Type 0) : Type 0 where
  -- base64.RawURLEncoding
  pub base64 : Bytes → String
  pub unbase64 : String → Result Bytes
  -- []byte(s)
  pub bytes : String → Bytes
  pub sha256 : Bytes → Bytes
  -- compress/gzip
  pub gzip : Bytes → Result Bytes
  -- json.Marshal and json.Unmarshal, for an array
  pub marshal : List (Json A) → Option Bytes
  pub unmarshal : Bytes → Option (List (Json A))
  -- strings.ToLower, and fmt's `%q`
  pub to_lower : String → String
  pub quote : String → String

-- The documented behaviour of the encodings: what was encoded decodes, and base64url has neither a
-- tilde nor a full stop. The JSON of an array is not empty, and neither is its base64url.
pub record EncodingLaws {A : Type 0} (E : Encoding A) : Type 0 where
  pub unbase64-base64 : (b : Bytes) → E.unbase64 (E.base64 b) ≡ good b
  pub unmarshal-marshal :
      (l : List (Json A)) (b : Bytes) → E.marshal l ≡ some b → E.unmarshal b ≡ some l
  pub base64-marshal :
      (l : List (Json A)) (b : Bytes) → E.marshal l ≡ some b → (E.base64 b == "") ≡ false
  pub base64-tilde : (b : Bytes) → has_sign tilde (E.base64 b) ≡ false
  pub base64-stop : (b : Bytes) → has_sign b'.' (E.base64 b) ≡ false

-- The header of a token beside its algorithm.
pub record Header : Type 0 where
  pub typ : String
  pub kid : String

pub record RegisteredClaims : Type 0 where
  pub issuer : String
  pub subject : String
  pub issued_at : Option Time
  pub expires_at : Option Time
  pub id : String

pub record CredentialStatus : Type 0 where
  pub id : String
  pub type : String
  pub status_purpose : String
  pub status_list_index : String
  pub status_list_credential : String

-- The claims of a credential, as the issuer writes them.
pub record SdJwtClaims : Type 0 where
  pub registered : RegisteredClaims
  pub vct : String
  pub sd_alg : String
  pub sd : List String
  pub deposit_id : String
  pub pledge_date : String
  pub statutory_basis : String
  pub issuing_bank : String
  pub issuing_bank_id : String
  pub property_id : String
  pub credential_status : Option CredentialStatus

-- The claims of a credential, as the verifier reads them.
pub record IssuerJwtClaims : Type 0 where
  pub registered : RegisteredClaims
  pub vct : String
  pub sd_alg : String
  pub sd : List String
  pub deposit_id : String
  pub pledge_date : String
  pub statutory_basis : String
  pub issuing_bank : String
  pub issuing_bank_id : String
  pub property_id : String

pub record StatusListSubject : Type 0 where
  pub id : String
  pub type : String
  pub status_purpose : String
  pub encoded_list : String

pub record StatusListVc : Type 0 where
  pub context : List String
  pub id : String
  pub type : List String
  pub issuer : String
  pub valid_from : String
  pub credential_subject : StatusListSubject

pub record StatusListVcClaims : Type 0 where
  pub registered : RegisteredClaims
  pub vc : StatusListVc

-- The claims of a key-binding token, with its audience.
pub record KbJwtClaims : Type 0 where
  pub audience : List String
  pub issued_at : Option Time
  pub nonce : String
  pub sd_hash : String

-- The algorithm of a token, as `jwt.SigningMethodECDSA` or another one by its name.
pub data Method : Type 0 where
  ecdsa : Method
  unlike : String → Method

-- golang-jwt with private keys `K` and public keys `P`.
pub record Jwt (K P : Type 0) : Type 0 where
  pub public_key : K → P
  -- jwt.NewNumericDate
  pub numeric_date : Time → Time
  -- SignedString with ES256
  pub sign : K → Header → SdJwtClaims → Result String
  pub sign_list : K → Header → StatusListVcClaims → Result String
  -- ParseWithClaims at a time, with the function that gives the key for a method
  pub parse_with_claims : String → (Method → Result P) → Time → Result IssuerJwtClaims
  -- ParseUnverified, with the header `typ` if it is a text
  pub parse_unverified : String → Result (Option String × KbJwtClaims)

-- The claims that the verifier reads are those of the same names.
abbrev pub read_back : SdJwtClaims → IssuerJwtClaims
read_back c = record {
  registered = c.registered;
  vct = c.vct;
  sd_alg = c.sd_alg;
  sd = c.sd;
  deposit_id = c.deposit_id;
  pledge_date = c.pledge_date;
  statutory_basis = c.statutory_basis;
  issuing_bank = c.issuing_bank;
  issuing_bank_id = c.issuing_bank_id;
  property_id = c.property_id;
}

-- The documented behaviour of golang-jwt: a signed token parses with the public key before it
-- expires, and it has no tilde and is not empty.
pub record JwtLaws {K P : Type 0} (J : Jwt K P) : Type 0 where
  pub parse-sign :
      (key : K) (header : Header) (claims : SdJwtClaims) (s : String) (key_for : Method → Result P)
      (now expires : Time)
      → J.sign key header claims ≡ good s
      → key_for ecdsa ≡ good (J.public_key key)
      → claims.registered.expires_at ≡ some expires
      → after expires now ≡ true
      → J.parse_with_claims s key_for now ≡ good (read_back claims)
  pub sign-tilde :
      (key : K) (header : Header) (claims : SdJwtClaims) (s : String)
      → J.sign key header claims ≡ good s
      → has_sign tilde s ≡ false
  pub sign-nonempty :
      (key : K) (header : Header) (claims : SdJwtClaims) (s : String)
      → J.sign key header claims ≡ good s
      → (s == "") ≡ false
