-- ===== src/Issuance/Credential.antt =====
-- The credential of a pledged deposit: server/internal/issuance/credential.go. The key of the signer
-- and its identifier are given: `Signer.init` makes them once.
use Prim.Native.Char.{code}
use Prim.Native.String.{◌++◌}
use xmiete.Prelude.{
  ℕ, suc, ◌*◌, ◌+◌, String, Option, none, some, List, [], ◌∷◌, ◌==◌, eqb, if◌then◌else◌,
}
use xmiete.Prelude.Int.{ℤ, int_text}
use xmiete.Prelude.Results.{Result, good, ◌>>=◌, given_or, within}
use xmiete.Prelude.Split.{join}
use xmiete.Calendar.{Time, day, date_of, add_date, add_years, format_date, parse_date, midnight}
use xmiete.Models.{Address, Provider, Pledge, Deposit}
use xmiete.Crypto.{Bytes, Json, number, text, Encoding, Jwt, SdJwtClaims}

pub record Signer (K : Type 0) : Type 0 where
  pub key : K
  pub key_id : String

-- strings.ReplaceAll(s, " ", ".")
unfoldable pub dotted : String → String
dotted String.[] = ""
dotted (String.◌∷◌ c s) =
    let rest = dotted s in if eqb (code c) b' ' then "." ++ rest else String.◌∷◌ c rest

abbrev pub expiry : Time → String → Time
expiry now valid_until =
    if valid_until == ""
    then add_years 1 now
    else elim (parse_date valid_until) [ none ↦ add_years 1 now | some c ↦ midnight c + 30 * day ]

abbrev pub pledged_until : Time → String → String
pledged_until now valid_until =
    if valid_until == "" then format_date (add_date 1 0 (date_of now)) else valid_until

abbrev pub property_address : Address → String
property_address p =
    if p.street == ""
    then ""
    else p.street ++ (", " ++ (p.zip ++ (" " ++ (p.city ++ (", " ++ p.country)))))

abbrev pub pledge_date : Time → Option Pledge → String
pledge_date now none = format_date (date_of now)
pledge_date now (some p) = if p.pledge_date == "" then format_date (date_of now) else p.pledge_date

abbrev pub bank_name : Option Provider → String
bank_name none = ""
bank_name (some p) = p.executing_entity

module _ {A : Type 0} (E : Encoding A) where
  open E use {base64, bytes, sha256, marshal, quote, to_lower}

  abbrev pub bank_id : Option Provider → String
  bank_id p = if bank_name p == "" then "" else "https://" ++ to_lower (dotted (bank_name p))

  -- base64url(sha256(s))
  abbrev pub hash_of : String → String
  hash_of s = base64 (sha256 (bytes s))

  abbrev pub hashes : List String → List String
  hashes [] = []
  hashes (s ∷ ss) = hash_of s ∷ hashes ss

  -- The encoding of [salt, name, value]; its hash is `hash_of` it. "rand" and "json" stand for the
  -- texts of the errors of these packages.
  unfoldable pub new_sd_disclosure : Option Bytes → String → Json A → Result String
  new_sd_disclosure salt name value = do
    salt_bytes ← given_or "rand" salt
    b ← given_or "json" (marshal (text (base64 salt_bytes) ∷ text name ∷ value ∷ []))
    good (base64 b)

  -- The claims that the holder may disclose.
  unfoldable pub sd_specs : Deposit A → String → List (String × Json A)
  sd_specs d until =
      ("deposit_amount", number d.deposit.amount)
      ∷ ("currency", text d.deposit.currency)
      ∷ ("property_address", text (property_address d.property.address))
      ∷ ("tenant_first_name", text d.tenant.first_name)
      ∷ ("tenant_last_name", text d.tenant.last_name)
      ∷ ("pledged_until", text until)
      ∷ []

  -- The loop over the claims; `salts` are the answers of rand.Read.
  unfoldable pub disclosures :
      (ℕ → Option Bytes) → ℕ → List (String × Json A) → Result (List String)
  unfolding new_sd_disclosure
  disclosures salts i [] = good []
  disclosures salts i ((name, value) ∷ specs) = do
    enc ←
        within ("issuance: disclosure for " ++ (quote name ++ ": "))
          (new_sd_disclosure (salts i) name value)
    rest ← disclosures salts (suc i) specs
    good (enc ∷ rest)

  module _ {K P : Type 0} (J : Jwt K P) (signer : Signer K) where
    open J use {numeric_date, sign}

    unfoldable pub credential_claims :
        String → Deposit A → String → ℤ → String → Time → List String → SdJwtClaims
    credential_claims issuer_url d valid_until index credential_id now encodings =
        let status_list_url = issuer_url ++ "/v1/status-list/revocation" in
        record {
          registered = record {
            issuer = issuer_url;
            subject = d.tenant.email;
            issued_at = some (numeric_date now);
            expires_at = some (numeric_date (expiry now valid_until));
            id = credential_id;
          };
          vct = "DepositPledgeAttestation";
          sd_alg = "sha-256";
          sd = hashes encodings;
          deposit_id = d.id;
          pledge_date = pledge_date now d.pledge;
          statutory_basis = "BGB § 551";
          issuing_bank = bank_name d.provider;
          issuing_bank_id = bank_id d.provider;
          property_id = d.property.unit_id;
          credential_status = some (record {
            id = status_list_url ++ ("#" ++ int_text index);
            type = "BitstringStatusListEntry";
            status_purpose = "revocation";
            status_list_index = int_text index;
            status_list_credential = status_list_url;
          });
        }

    -- The token and the identifier of the credential. `fresh` is the answer of uuid.NewString, and
    -- `now` that of time.Now.
    unfoldable pub build_sd_jwt :
        String
        → Deposit A
        → String
        → ℤ
        → String
        → Time
        → (ℕ → Option Bytes)
        → Result (String × String)
    unfolding disclosures credential_claims sd_specs
    build_sd_jwt issuer_url d valid_until index fresh now salts = do
      let credential_id = "urn:xmiete:credential:" ++ fresh
      encodings ← disclosures salts 0 (sd_specs d (pledged_until now valid_until))
      signed ← within "issuance: signing credential: " (
          sign signer.key (record { typ = "vc+sd-jwt"; kid = signer.key_id })
            (credential_claims issuer_url d valid_until index credential_id now encodings))
      good (signed ++ ("~" ++ (join "~" encodings ++ "~")), credential_id)
