-- ===== src/Verification/Token.antt =====
-- `VerifyVpToken` of server/internal/verification/vp.go.
use Prim.Native.String.{◌++◌}
use xmiete.Prelude.{
  String, Bool, true, false, not, Option, none, some, List, [], ◌∷◌, ◌+◌, ◌*◌, ◌==◌, ltb, any,
  if◌then◌else◌, lookup,
}
use xmiete.Prelude.Results.{Result, good, bad, ◌>>=◌, ◌>>◌, fail_if, within}
use xmiete.Prelude.Split.{has_sign, split, tilde}
use xmiete.Calendar.{Time, minute, after}
use xmiete.Amount.{Amount}
use xmiete.Crypto.{
  Json, number, text, Encoding, IssuerJwtClaims, KbJwtClaims, Method, ecdsa, unlike, Jwt,
}
use xmiete.Issuance.Credential.{hash_of}

pub record VerifiedClaims (A : Type 0) : Type 0 where
  pub credential_id : String
  pub deposit_id : String
  pub pledge_date : String
  pub statutory_basis : String
  pub issuing_bank : String
  pub deposit_amount : A
  pub currency : String
  pub property_address : String
  pub tenant_first_name : String
  pub tenant_last_name : String
  pub pledged_until : String
  pub verified_at : Time

-- The parts after the issuer's token: the disclosures are those without a full stop.
unfoldable pub disclosures_in : List String → List String
disclosures_in [] = []
disclosures_in (p ∷ ps) =
    let rest = disclosures_in ps in
    if p == "" then rest else if has_sign b'.' p then rest else p ∷ rest

-- The last part with a full stop, or the text given.
unfoldable pub kb_jwt_in : String → List String → String
kb_jwt_in kb [] = kb
kb_jwt_in kb (p ∷ ps) = kb_jwt_in (if p == "" then kb else if has_sign b'.' p then p else kb) ps

-- The function that gives the key to ParseWithClaims.
abbrev pub issuer_key : {P : Type 0} → P → Method → Result P
issuer_key key ecdsa = good key
issuer_key key (unlike alg) = bad ("verification: unexpected signing method: " ++ alg)

abbrev pub is_expired : Option Time → Time → Bool
is_expired none now = false
is_expired (some t) now = after now t

-- Missing, or more than five minutes ago.
abbrev pub is_stale : Option Time → Time → Bool
is_stale none now = true
is_stale (some t) now = ltb (t + 5 * minute) now

abbrev pub is_audience : List String → String → Bool
is_audience [] uri = false
is_audience (aud ∷ _) uri = aud == uri

abbrev pub typ_text : Option String → String
typ_text none = ""
typ_text (some typ) = typ

-- Each disclosure with a tilde after it, as `computeSDHash` writes them.
abbrev pub with_tildes : List String → String
with_tildes [] = ""
with_tildes (d ∷ ds) = d ++ ("~" ++ with_tildes ds)

module _ {A : Type 0} where
  abbrev pub name_and_value : Option (List (Json A)) → Result (String × Json A)
  name_and_value (some (salt ∷ text name ∷ value ∷ [])) = good (name, value)
  name_and_value (some (salt ∷ _ ∷ value ∷ [])) =
      bad "verification: disclosure name is not a string"
  name_and_value _ = bad "verification: disclosure must be [salt, name, value]"

  abbrev pub text_in : Option (Json A) → String
  text_in (some (text s)) = s
  text_in _ = ""

module _ {A : Type 0} (E : Encoding A) where
  open E use {unbase64, unmarshal, quote}

  abbrev pub compute_sd_hash : String → List String → String
  compute_sd_hash issuer_jwt disclosures =
      hash_of E (issuer_jwt ++ ("~" ++ with_tildes disclosures))

  unfoldable pub decode_disclosure : String → Result (String × Json A)
  decode_disclosure enc = do
    raw ← within "verification: disclosure base64 decode: " (unbase64 enc)
    name_and_value (unmarshal raw)

  -- The loop over the disclosures, with the map `disclosed`; the last one set stands first.
  unfoldable pub verify_disclosures :
      List String → List (String × Json A) → List String → Result (List (String × Json A))
  verify_disclosures sd disclosed [] = good disclosed
  verify_disclosures sd disclosed (enc ∷ encs) = do
    fail_if (not (any (λ h. h == hash_of E enc) sd))
        ("verification: disclosure hash " ++ (quote (hash_of E enc) ++ " not found in _sd"))
    entry ← decode_disclosure enc
    verify_disclosures sd (entry ∷ disclosed) encs

  -- Steps 5b to 5e.
  unfoldable pub check_kb_jwt :
      Option String × KbJwtClaims
      → String
      → List String
      → String
      → String
      → Time
      → Result (Unit {0})
  check_kb_jwt (typ, kb) issuer_jwt disclosures expected_nonce response_uri now = do
    fail_if (not (typ_text typ == "kb+jwt"))
        ("verification: KB-JWT typ must be kb+jwt, got " ++ quote (typ_text typ))
    fail_if (not (kb.nonce == expected_nonce)) "verification: KB-JWT nonce mismatch"
    fail_if (not (is_audience kb.audience response_uri))
        "verification: KB-JWT aud does not match response_uri"
    fail_if (not (kb.sd_hash == compute_sd_hash issuer_jwt disclosures))
        "verification: KB-JWT sd_hash mismatch"
    fail_if (is_stale kb.issued_at now) "verification: KB-JWT iat too old or missing"
    good tt

  module _ ⦃F : Amount A⦄ where
    open F use {zero}

    abbrev pub amount_in : Option (Json A) → A
    amount_in (some (number a)) = a
    amount_in _ = zero

    unfoldable pub verified : IssuerJwtClaims → List (String × Json A) → Time → VerifiedClaims A
    unfolding lookup
    verified claims disclosed now = record {
      credential_id = claims.registered.id;
      deposit_id = claims.deposit_id;
      pledge_date = claims.pledge_date;
      statutory_basis = claims.statutory_basis;
      issuing_bank = claims.issuing_bank;
      deposit_amount = amount_in (lookup "deposit_amount" disclosed);
      currency = text_in (lookup "currency" disclosed);
      property_address = text_in (lookup "property_address" disclosed);
      tenant_first_name = text_in (lookup "tenant_first_name" disclosed);
      tenant_last_name = text_in (lookup "tenant_last_name" disclosed);
      pledged_until = text_in (lookup "pledged_until" disclosed);
      verified_at = now;
    }

    module _ {K P : Type 0} (J : Jwt K P) where
      open J use {parse_with_claims, parse_unverified}

      -- Step 5.
      unfoldable pub verify_kb_jwt :
          String → String → List String → String → String → Time → Result (Unit {0})
      unfolding check_kb_jwt
      verify_kb_jwt kb_jwt issuer_jwt disclosures nonce uri now =
          if kb_jwt == "" then good tt else do
            kb ← within "verification: KB-JWT parse: " (parse_unverified kb_jwt)
            check_kb_jwt kb issuer_jwt disclosures nonce uri now

      -- Steps 2 to 6, on the parts of the token. The clock is read for the signature, the expiry,
      -- the age of the key-binding token, and the result.
      unfoldable pub verify_parts :
          String
          → List String
          → String
          → P
          → String
          → String
          → Time × Time × Time × Time
          → Result (VerifiedClaims A)
      unfolding verify_disclosures verify_kb_jwt verified
      verify_parts issuer_jwt disclosures kb_jwt key nonce uri (t1, t2, t3, t4) = do
        claims ←
            within "verification: issuer JWT invalid: "
              (parse_with_claims issuer_jwt (issuer_key key) t1)
        fail_if (not (claims.vct == "DepositPledgeAttestation"))
            ("verification: unexpected vct " ++ quote claims.vct)
        fail_if (is_expired claims.registered.expires_at t2) "verification: credential has expired"
        disclosed ← verify_disclosures claims.sd [] disclosures
        verify_kb_jwt kb_jwt issuer_jwt disclosures nonce uri t3
        good (verified claims disclosed t4)

      -- Step 1, on the text split at the tildes.
      unfoldable pub verify_split :
          List String → P → String → String → Time × Time × Time × Time → Result (VerifiedClaims A)
      unfolding disclosures_in kb_jwt_in
      verify_split [] key nonce uri times =
          bad "verification: malformed vp_token: missing issuer JWT"
      verify_split (jwt ∷ parts) key nonce uri times =
          if jwt == ""
          then bad "verification: malformed vp_token: missing issuer JWT"
          else verify_parts jwt (disclosures_in parts) (kb_jwt_in "" parts) key nonce uri times

      unfoldable pub verify_vp_token :
          String → P → String → String → Time × Time × Time × Time → Result (VerifiedClaims A)
      unfolding split
      verify_vp_token vp_token key nonce uri times =
          verify_split (split tilde vp_token) key nonce uri times
