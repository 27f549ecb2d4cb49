-- ===== src/Tests/Wallet.antt =====
-- A credential of the posted deposit, and a wallet that presents it.
use Prim.Native.String.{◌++◌}
use xmiete.Prelude.{ℕ, ◌*◌, String, true, false, some, Option, List, [], ◌∷◌, ◌≡◌, refl, arith}
use xmiete.Prelude.Decimal.{decimal_text}
use xmiete.Prelude.Int.{pos}
use xmiete.Prelude.Results.{good}
use xmiete.Calendar.{
  Time, second, after, format_date, date_of, civil, day_number, midnight, parse_date,
}
use xmiete.Models.{Deposit}
use xmiete.Crypto.{Bytes, Json, number, text, Encoding, Jwt, KbJwtClaims, SdJwtClaims}
use xmiete.Issuance.Credential.{Signer, build_sd_jwt, dotted, expiry}
use xmiete.Verification.Token.{
  VerifiedClaims, decode_disclosure, verify_parts, verify_split, verify_vp_token,
}
use xmiete.Verification.Issued.{attested, issued-verified}
use xmiete.Verification.Accepted.{Accepted, verify_vp_token-Accepted}
use xmiete.Issuance.Metadata.{Coordinate}
use xmiete.Api.Server.{Server}
use xmiete.Tests.Data.{thousandths, posted}
use xmiete.Tests.Crypto.{encoding, encoding_laws}
use xmiete.Tests.Signatures.{jwt, jwt_laws}

-- A date as the end of the pledge keeps the clock out of the claims.
abbrev pub until : String
until = "2027-01-01"

abbrev pub let_flat : Deposit ℕ
let_flat = record posted { id = "u" }

abbrev pub documents : List (List (Json ℕ))
documents =
    (text "e" ∷ text "deposit_amount" ∷ number 1500000 ∷ [])
    ∷ (text "e" ∷ text "currency" ∷ text "EUR" ∷ [])
    ∷ (text "e" ∷ text "property_address" ∷ text "" ∷ [])
    ∷ (text "e" ∷ text "tenant_first_name" ∷ text "Erika" ∷ [])
    ∷ (text "e" ∷ text "tenant_last_name" ∷ text "Mustermann" ∷ [])
    ∷ (text "e" ∷ text "pledged_until" ∷ text until ∷ [])
    ∷ []

abbrev pub table_encoding : Encoding ℕ
table_encoding = encoding documents

-- A key-binding token for all disclosures of the credential.
abbrev pub kb : KbJwtClaims
kb = record {
  audience = "https://verifier.example" ∷ [];
  issued_at = some (60 * second);
  nonce = "n";
  sd_hash = "aaaaaaaaaaaaaaaaaaaaaaaaaaaaaaaaaaaaace";
}

abbrev pub key_jwt : Jwt SdJwtClaims SdJwtClaims
key_jwt = jwt kb

abbrev pub key : SdJwtClaims
key = record {
  registered = record {
    issuer = "https://bank.example";
    subject = "erika@example.org";
    issued_at = some (5 * second);
    expires_at = some 63936950400000000000;
    id = "urn:xmiete:credential:uu";
  };
  vct = "DepositPledgeAttestation";
  sd_alg = "sha-256";
  sd = "aace" ∷ "aaace" ∷ "aaaace" ∷ "aaaaace" ∷ "aaaaaace" ∷ "aaaaaaace" ∷ [];
  deposit_id = "u";
  pledge_date = "0001-01-01";
  statutory_basis = "BGB § 551";
  issuing_bank = "";
  issuing_bank_id = "";
  property_id = "";
  credential_status = some (record {
    id = "https://bank.example/v1/status-list/revocation#7";
    type = "BitstringStatusListEntry";
    status_purpose = "revocation";
    status_list_index = "7";
    status_list_credential = "https://bank.example/v1/status-list/revocation";
  });
}

abbrev pub signer : Signer SdJwtClaims
signer = record { key = key; key_id = "k" }

abbrev origin : Coordinate
origin = record { big_endian = 7 ∷ 1 ∷ []; fits = omega arith }

abbrev pub server : Server ℕ SdJwtClaims SdJwtClaims
server = record {
  webhook_url = "";
  receipt = λ d. some d.id;
  release_receipt = λ d. some d.id;
  issuer = record {
    issuer_url = "https://bank.example";
    signer = signer;
    encoding = table_encoding;
    jwt = key_jwt;
    coordinates = λ k. (origin, origin);
  };
  links = record { marshal = λ r. some r.nonce; query_escape = λ s. s };
}

abbrev pub token : String
token = "jwt~ce~ace~aace~aaace~aaaace~aaaaace~"

abbrev credential_id : String
credential_id = "urn:xmiete:credential:uu"

abbrev pub salt : ℕ → Option Bytes
salt n = some []

abbrev times : Time × Time × Time × Time
times = (70 * second, 71 * second, 72 * second, 73 * second)

abbrev vouched : VerifiedClaims ℕ
vouched = attested let_flat until (5 * second) credential_id (73 * second)

issued :
    build_sd_jwt table_encoding key_jwt signer "https://bank.example" let_flat until
      (pos 7)
      "uu"
      (5 * second)
      salt
    ≡ good (token, credential_id)
unfolding build_sd_jwt encoding jwt dotted decimal_text parse_date midnight format_date date_of
    civil day_number
issued = refl

in_time : after (key_jwt.numeric_date (expiry (5 * second) until)) (70 * second) ≡ true
unfolding jwt midnight parse_date day_number
in_time = refl

not_expired : after (71 * second) (key_jwt.numeric_date (expiry (5 * second) until)) ≡ false
unfolding jwt midnight parse_date day_number
not_expired = refl

issued-verified_example :
    verify_vp_token table_encoding key_jwt token key "" "" times ≡ good vouched
unfolding jwt
issued-verified_example =
    issued-verified table_encoding (encoding_laws documents) key_jwt (jwt_laws kb) signer
      "https://bank.example" let_flat until (pos 7) "uu" (5 * second) salt token credential_id
      issued "" "" (70 * second) (71 * second) (72 * second) (73 * second) in_time not_expired

-- With the key-binding token.
bound :
    verify_vp_token table_encoding key_jwt
      (token ++ "kb.jwt")
      key
      "n"
      "https://verifier.example"
      times
    ≡ good vouched
unfolding verify_vp_token verify_split verify_parts decode_disclosure encoding jwt parse_date
    format_date date_of civil day_number
bound = refl

verify_vp_token-Accepted_example :
    Accepted table_encoding key_jwt
      (token ++ "kb.jwt")
      key
      "n"
      "https://verifier.example"
      times
      vouched
verify_vp_token-Accepted_example =
    verify_vp_token-Accepted table_encoding key_jwt (token ++ "kb.jwt") key "n"
      "https://verifier.example" (70 * second) (71 * second) (72 * second) (73 * second) vouched
      bound
