-- ===== src/Sdk/Openid4vp/Token.antt =====
-- `VerifyVpToken` of sdk-examples/go/openid4vp/service.go. The signatures are not checked, as in the
-- code.
use Prim.Native.String.{◌++◌}
use xmiete.Prelude.{
  String, Bool, not, ◌||◌, Option, none, some, List, [], ◌∷◌, ◌==◌, any, if◌then◌else◌, lookup,
}
use xmiete.Prelude.Int.{ℤ, pos, negsuc, ◌+ℤ◌, leb_ℤ}
use xmiete.Prelude.Results.{Result, good, bad, ◌>>=◌, ◌>>◌, fail_if, within, value_of}
use xmiete.Prelude.Split.{split, split_n, tilde, stop}
use xmiete.Calendar.{Time, unix}
use xmiete.Crypto.{Bytes, Encoding}
use xmiete.Issuance.Credential.{hash_of}
use xmiete.Verification.Token.{with_tildes}
use xmiete.Sdk.Openid4vp.Models.{VerifiedClaims, IssuerClaims}

-- The payload of a key-binding token. `iat` is in Unix seconds.
pub record KbPayload : Type 0 where
  pub nonce : String
  pub aud : String
  pub sd_hash : String
  pub iat : ℤ

-- json.Unmarshal into the types of the SDK. A json.RawMessage is the bytes of an element.
pub record Decoder (A : Type 0) : Type 0 where
  pub issuer_payload : Bytes → Result IssuerClaims
  pub kb_payload : Bytes → Result KbPayload
  -- whether a header fails to parse, and the `typ` that is then set
  pub kb_header : Bytes → Bool × String
  pub raw_array : Bytes → Option (List Bytes)
  pub string_of : Bytes → Result String
  pub float_of : Bytes → Option A

-- The last part after the issuer's token.
abbrev pub last_part : List String → String
last_part [] = ""
last_part (p ∷ []) = p
last_part (p ∷ q ∷ ps) = last_part (q ∷ ps)

abbrev pub without_last : List String → List String
without_last [] = []
without_last (p ∷ []) = []
without_last (p ∷ q ∷ ps) = p ∷ without_last (q ∷ ps)

abbrev pub non_empty : List String → List String
non_empty [] = []
non_empty (p ∷ ps) = let rest = non_empty ps in if p == "" then rest else p ∷ rest

abbrev pub disclosure_encodings : List String → List String
disclosure_encodings parts = non_empty (if last_part parts == "" then parts else without_last parts)

-- From the future, or more than five minutes ago.
abbrev pub is_stale : ℤ → ℤ → Bool
is_stale iat now = not (leb_ℤ iat (now +ℤ pos 30)) || not (leb_ℤ (now +ℤ negsuc 299) iat)

-- What is disclosed: an array of three elements or more, with its name and its value.
abbrev pub name_and_value : {A : Type 0} → Decoder A → Option (List Bytes) → Result (String × Bytes)
name_and_value D (some (salt ∷ name ∷ value ∷ _)) = do
  text ← within "openid4vp: disclosure name is not a string: " (D.string_of name)
  good (text, value)
name_and_value D _ = bad "openid4vp: disclosure must be a JSON array with at least 3 elements"

module _ {A : Type 0} (E : Encoding A) (D : Decoder A) where
  open E use {unbase64, quote}
  open D use {issuer_payload, kb_payload, kb_header, raw_array, string_of, float_of}

  abbrev pub claims_in : List String → Result IssuerClaims
  claims_in (_ ∷ payload ∷ _ ∷ []) = do
    raw ← within "base64 decode payload: " (unbase64 payload)
    within "parse payload: " (issuer_payload raw)
  claims_in _ = bad "malformed JWT: expected 3 dot-separated parts"

  unfoldable pub verify_issuer_jwt : String → Result IssuerClaims
  unfolding split_n
  verify_issuer_jwt jwt = claims_in (split_n 3 stop jwt)

  unfoldable pub decode_disclosure : String → Result (String × Bytes)
  decode_disclosure enc = do
    raw ← within "openid4vp: decode disclosure: " (unbase64 enc)
    name_and_value D (raw_array raw)

  -- The loop over the disclosures, with the map `disclosed`; the last one set stands first.
  unfoldable pub verify_disclosures :
      List String → List (String × Bytes) → List String → Result (List (String × Bytes))
  unfolding decode_disclosure
  verify_disclosures sd disclosed [] = good disclosed
  verify_disclosures sd disclosed (enc ∷ encs) = do
    fail_if (not (any (λ h. h == hash_of E enc) sd))
        ("openid4vp: disclosure digest " ++ (hash_of E enc ++ " not in _sd array"))
    entry ← decode_disclosure enc
    verify_disclosures sd (entry ∷ disclosed) encs

  abbrev pub check_typ : Bool × String → Result (Unit {0})
  check_typ (failed, typ) =
      fail_if (failed || not (typ == "kb+jwt"))
        ("openid4vp: KB-JWT typ must be kb+jwt, got " ++ quote typ)

  -- Over the issuer's token and the disclosures, each with a tilde after it.
  abbrev pub expected_sd_hash : String → List String → String
  expected_sd_hash issuer_jwt disclosures =
      hash_of E (issuer_jwt ++ ("~" ++ with_tildes disclosures))

  unfoldable pub check_payload :
      KbPayload → String → List String → String → String → Time → Result (Unit {0})
  unfolding ◌+ℤ◌
  check_payload p issuer_jwt disclosures expected_nonce response_uri now = do
    fail_if (not (p.nonce == expected_nonce)) (
        "openid4vp: KB-JWT nonce mismatch: expected "
        ++ (quote expected_nonce ++ (", got " ++ quote p.nonce)))
    fail_if (not (p.aud == response_uri)) (
        "openid4vp: KB-JWT aud mismatch: expected "
        ++ (quote response_uri ++ (", got " ++ quote p.aud)))
    fail_if (not (p.sd_hash == expected_sd_hash issuer_jwt disclosures))
        "openid4vp: KB-JWT sd_hash mismatch"
    fail_if (is_stale p.iat (unix now)) "openid4vp: KB-JWT iat is stale or from the future"
    good tt

  -- On the parts of the key-binding token.
  abbrev pub verify_kb_parts :
      List String → String → List String → String → String → Time → Result (Unit {0})
  verify_kb_parts (header ∷ payload ∷ _) issuer_jwt disclosures nonce uri now = do
    header_raw ← within "openid4vp: decode KB-JWT header: " (unbase64 header)
    check_typ (kb_header header_raw)
    payload_raw ← within "openid4vp: decode KB-JWT payload: " (unbase64 payload)
    p ← within "openid4vp: parse KB-JWT payload: " (kb_payload payload_raw)
    check_payload p issuer_jwt disclosures nonce uri now
  verify_kb_parts _ issuer_jwt disclosures nonce uri now = bad "openid4vp: malformed KB-JWT"

  unfoldable pub verify_kb_jwt :
      String → String → List String → String → String → Time → Result (Unit {0})
  unfolding split_n check_payload
  verify_kb_jwt kb_jwt issuer_jwt disclosures nonce uri now =
      verify_kb_parts (split_n 3 stop kb_jwt) issuer_jwt disclosures nonce uri now

  abbrev pub text_or_nil : Option Bytes → Option String
  text_or_nil none = none
  text_or_nil (some raw) = value_of (string_of raw)

  abbrev pub opt_string : List (String × Bytes) → String → Option String
  opt_string m key = text_or_nil (lookup key m)

  abbrev pub opt_float : Option Bytes → Option A
  opt_float none = none
  opt_float (some raw) = float_of raw

  unfoldable pub verified : IssuerClaims → List (String × Bytes) → Time → VerifiedClaims A
  unfolding lookup
  verified claims disclosed now = record {
    credential_id = claims.credential_id;
    deposit_id = claims.deposit_id;
    pledge_date = claims.pledge_date;
    statutory_basis = claims.statutory_basis;
    issuing_bank = claims.issuing_bank;
    deposit_amount = opt_float (lookup "deposit_amount" disclosed);
    currency = opt_string disclosed "currency";
    property_address = opt_string disclosed "property_address";
    tenant_first_name = opt_string disclosed "tenant_first_name";
    tenant_last_name = opt_string disclosed "tenant_last_name";
    pledged_until = opt_string disclosed "pledged_until";
    verified_at = now;
  }

  -- On the issuer's token, the disclosures and the key-binding token. The clock is read for the
  -- expiry, the age of the key-binding token, and the result.
  unfoldable pub verify_parts :
      String
      → List String
      → String
      → String
      → String
      → Time × Time × Time
      → Result (VerifiedClaims A)
  unfolding verify_issuer_jwt verify_disclosures verify_kb_jwt verified
  verify_parts issuer_jwt disclosures kb_jwt nonce uri (t1, t2, t3) = do
    claims ← within "openid4vp: issuer JWT: " (verify_issuer_jwt issuer_jwt)
    fail_if (leb_ℤ claims.exp (unix t1)) "openid4vp: issuer JWT has expired"
    disclosed ← verify_disclosures claims.sd_hashes [] disclosures
    if kb_jwt == "" then good tt else verify_kb_jwt kb_jwt issuer_jwt disclosures nonce uri t2
    good (verified claims disclosed t3)

  unfoldable pub verify_split :
      List String → String → String → Time × Time × Time → Result (VerifiedClaims A)
  unfolding verify_parts
  verify_split [] nonce uri times = bad "openid4vp: missing issuer JWT in vp_token"
  verify_split (jwt ∷ parts) nonce uri times =
      if jwt == ""
      then bad "openid4vp: missing issuer JWT in vp_token"
      else verify_parts jwt (disclosure_encodings parts) (last_part parts) nonce uri times

  unfoldable pub verify_vp_token :
      String → String → String → Time × Time × Time → Result (VerifiedClaims A)
  unfolding split verify_split
  verify_vp_token vp_token nonce uri times = verify_split (split tilde vp_token) nonce uri times
