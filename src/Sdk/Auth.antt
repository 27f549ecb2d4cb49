-- ===== src/Sdk/Auth.antt =====
-- sdk-examples/go/auth/validator.go: bearer tokens of an OpenID provider. The signature is not
-- checked, as in the code, whose `verifySignatureStub` is empty. The child Grants says which tokens
-- pass.
pub mod Text
pub mod Grants
use Prim.Native.String.{◌++◌}
use xmiete.Prelude.{
  String, Bool, true, false, not, Option, none, some, List, [], ◌∷◌, ◌==◌, any, if◌then◌else◌,
}
use xmiete.Prelude.Decimal.{decimal_text}
use xmiete.Prelude.Int.{ℤ, leb_ℤ, int_text}
use xmiete.Prelude.Results.{Result, good, bad}
use xmiete.Prelude.Split.{split_n, stop, after_prefix}
use xmiete.Calendar.{Time, unix}
use xmiete.Crypto.{Bytes}
use xmiete.Sdk.Auth.Text.{trim_suffix, trim_right, fields}

-- The keys of the map `Scopes`; the order in which Go walks a map is not fixed.
abbrev pub Scopes : Type 0
Scopes = List String

-- `expires_at` is in Unix seconds.
pub record TokenClaims : Type 0 where
  pub subject : String
  pub issuer : String
  pub scopes : Scopes
  pub expires_at : ℤ

abbrev pub holds_scope : String → Scopes → Bool
holds_scope scope scopes = any (λ s. s == scope) scopes

abbrev pub has_scope : TokenClaims → String → Bool
has_scope c scope = holds_scope scope c.scopes

pub data AuthError : Type 0 where
  token_validation : String → AuthError
  insufficient_scope : String → List String → AuthError

pub data Validated (R : Type 0) : Type 0 where
  valid : R → Validated R
  invalid : AuthError → Validated R

infixl 5 ◌>>=◌
abbrev pub ◌>>=◌ : {R T : Type 0} → Validated R → (R → Validated T) → Validated T
valid r >>= f = f r
invalid e >>= f = invalid e

infixl 5 ◌>>◌
abbrev pub ◌>>◌ : {T : Type 0} → Validated (Unit {0}) → Validated T → Validated T
m >> k = m >>= λ _. k

abbrev pub refuse_if : Bool → String → Validated (Unit {0})
refuse_if test message = if test then invalid (token_validation message) else valid tt

abbrev pub or_invalid : {R : Type 0} → String → Result R → Validated R
or_invalid prefix (good r) = valid r
or_invalid prefix (bad e) = invalid (token_validation (prefix ++ e))

pub record OidcTokenValidator : Type 0 where
  pub jwks_uri : String
  pub expected_issuer : String

unfoldable pub new_oidc_token_validator : String → OidcTokenValidator
unfolding trim_suffix
new_oidc_token_validator discovery_url =
    let issuer = trim_suffix "/.well-known/openid-configuration" discovery_url in
    record { jwks_uri = issuer ++ "/.well-known/jwks.json"; expected_issuer = issuer }

-- The claims as they are read, with `A` for float64.
pub record Payload (A : Type 0) : Type 0 where
  pub sub : String
  pub iss : String
  pub scope : String
  pub exp : A

-- scopes[s] = struct{}{}
abbrev pub add_scope : Scopes → String → Scopes
add_scope scopes s = if holds_scope s scopes then scopes else s ∷ scopes

abbrev pub add_scopes : Scopes → List String → Scopes
add_scopes scopes [] = scopes
add_scopes scopes (s ∷ ss) = add_scopes (add_scope scopes s) ss

-- The first scope that the claims lack.
unfoldable pub check_scopes : TokenClaims → List String → Validated (Unit {0})
check_scopes claims [] = valid tt
check_scopes claims (scope ∷ required) =
    let rest = check_scopes claims required in
    if not (has_scope claims scope) then invalid (insufficient_scope scope claims.scopes) else rest

-- strings.TrimPrefix(bearer, "Bearer ")
abbrev pub trimmed : String → Option String → String
trimmed bearer none = bearer
trimmed bearer (some token) = token

-- base64.RawURLEncoding and json.Unmarshal, the test `p.Exp == 0`, `int64(p.Exp)` and fmt's `%q`.
pub record Reading (A : Type 0) : Type 0 where
  pub unbase64 : String → Result Bytes
  pub payload : Bytes → Result (Payload A)
  pub is_zero : A → Bool
  pub seconds : A → ℤ
  pub quote : String → String

module _ {A : Type 0} (R : Reading A) (v : OidcTokenValidator) where
  open R use {unbase64, payload, is_zero, seconds, quote}

  unfoldable pub check_claims : Payload A → Time → Validated TokenClaims
  unfolding fields
  check_claims p now = do
    refuse_if (p.sub == "") "missing claim: sub"
    refuse_if (p.iss == "") "missing claim: iss"
    refuse_if (is_zero p.exp) "missing claim: exp"
    refuse_if (not (p.iss == v.expected_issuer)) ("unexpected issuer: " ++ quote p.iss)
    refuse_if (not (leb_ℤ (unix now) (seconds p.exp)))
        ("token expired at epoch " ++ int_text (seconds p.exp))
    valid (record {
      subject = p.sub;
      issuer = p.iss;
      scopes = add_scopes [] (fields p.scope);
      expires_at = seconds p.exp;
    })

  abbrev pub count : List String → String
  count [] = "0"
  count (_ ∷ []) = "1"
  count (_ ∷ _ ∷ []) = "2"
  count _ = "3"

  abbrev pub check_jwt : List String → Time → Validated TokenClaims
  check_jwt (_ ∷ encoded ∷ _ ∷ []) now = do
    raw ← or_invalid "base64 decode: " (unbase64 (trim_right b'=' encoded))
    p ← or_invalid "json parse: " (payload raw)
    check_claims p now
  check_jwt parts now =
      invalid (token_validation ("malformed JWT: expected 3 parts, got " ++ count parts))

  unfoldable pub parse_and_validate_claims : String → Time → Validated TokenClaims
  unfolding split_n check_claims
  parse_and_validate_claims jwt now = check_jwt (split_n 3 stop jwt) now

  unfoldable pub validate_token : String → List String → Time → Validated TokenClaims
  unfolding after_prefix parse_and_validate_claims check_scopes
  validate_token bearer required now = do
    claims ← parse_and_validate_claims (trimmed bearer (after_prefix "Bearer " bearer)) now
    check_scopes claims required
    valid claims
