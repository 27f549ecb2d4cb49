-- ===== src/Tests/SdkWallet.antt =====
-- The credential of Wallet.antt, presented to the verifier of the SDK.
use Prim.Native.String.{◌++◌}
use xmiete.Prelude.{ℕ, ◌*◌, String, some, ◌≡◌, refl, arith, false}
use xmiete.Prelude.Decimal.{decimal_text}
use xmiete.Prelude.Int.{pos, leb_ℤ}
use xmiete.Prelude.Results.{good}
use xmiete.Calendar.{
  Time, second, unix, format_date, date_of, civil, day_number, midnight, parse_date,
}
use xmiete.Crypto.{Jwt}
use xmiete.Issuance.Credential.{Signer, build_sd_jwt, dotted, expiry}
use xmiete.Sdk.Openid4vp.Models.{VerifiedClaims}
use xmiete.Sdk.Openid4vp.Request.{new_uuid}
use xmiete.Sdk.Openid4vp.Uuid.{bytes_16, IsUuid, new_uuid-IsUuid}
use xmiete.Sdk.Openid4vp.Token.{KbPayload, Decoder, verify_vp_token}
use xmiete.Sdk.Openid4vp.Issued.{attested, issued-verified_by_sdk}
use xmiete.Sdk.Openid4vp.Accepted.{Accepted, verify_vp_token-Accepted_sdk}
use xmiete.Tests.Data.{thousandths}
use xmiete.Tests.Crypto.{encoding, encoding_laws}
use xmiete.Tests.Signatures.{compact_jwt, compact_laws}
use xmiete.Tests.Wallet.{until, let_flat, documents, table_encoding, kb, key, salt}
use xmiete.Tests.Wire.{decoder, wire_laws}

abbrev payload : KbPayload
payload = record {
  nonce = "n";
  aud = "https://verifier.example";
  sd_hash = "aaaaaaaaaaaaaaaaaaaaaaaaaaaaaaaaaaaaaaace";
  iat = unix (71 * second);
}

abbrev one_jwt : Jwt (Unit {0}) (Unit {0})
one_jwt = compact_jwt key kb

abbrev reader : Decoder ℕ
reader = decoder documents key payload

abbrev one_signer : Signer (Unit {0})
one_signer = record { key = tt; key_id = "k" }

abbrev token : String
token = "h.e.s~ce~ace~aace~aaace~aaaace~aaaaace~"

abbrev credential_id : String
credential_id = "urn:xmiete:credential:uu"

abbrev times : Time × Time × Time
times = (70 * second, 72 * second, 73 * second)

abbrev vouched : VerifiedClaims ℕ
vouched = attested let_flat until (5 * second) credential_id (73 * second)

issued :
    build_sd_jwt table_encoding one_jwt one_signer "https://bank.example" let_flat until
      (pos 7)
      "uu"
      (5 * second)
      salt
    ≡ good (token, credential_id)
unfolding build_sd_jwt encoding compact_jwt dotted decimal_text parse_date midnight format_date
    date_of civil day_number
issued = refl

unexpired :
    leb_ℤ (unix (one_jwt.numeric_date (expiry (5 * second) until))) (unix (70 * second)) ≡ false
unfolding compact_jwt midnight parse_date day_number
unexpired = refl

issued-verified_by_sdk_example :
    verify_vp_token table_encoding reader token "" "" times ≡ good vouched
issued-verified_by_sdk_example =
    issued-verified_by_sdk table_encoding (encoding_laws documents) one_jwt (compact_laws key kb)
      reader (wire_laws documents key payload kb) one_signer "https://bank.example" let_flat until
      (pos 7) "uu" (5 * second) salt token credential_id issued "" "" (70 * second) (72 * second)
      (73 * second) unexpired

-- With a key-binding token.
bound :
    verify_vp_token table_encoding reader (token ++ "e.e.e") "n" "https://verifier.example" times
    ≡ good vouched
unfolding verify_vp_token encoding decoder parse_date format_date date_of civil day_number
bound = refl

verify_vp_token-Accepted_sdk_example :
    Accepted table_encoding reader (token ++ "e.e.e") "n" "https://verifier.example" times vouched
verify_vp_token-Accepted_sdk_example =
    verify_vp_token-Accepted_sdk table_encoding reader (token ++ "e.e.e") "n"
      "https://verifier.example" (70 * second) (72 * second) (73 * second) vouched bound

new_uuid-IsUuid_example :
    (s : String) × (new_uuid
        (some (bytes_16 (0, 1, 2, 3, 4, 5) 255 7 255 (9, 10, 11, 12, 13, 14, 15)))
      ≡ good s)
    × IsUuid s
new_uuid-IsUuid_example =
    new_uuid-IsUuid 0 1 2 3 4 5 255 7 255 9 10 11 12 13 14 15 (omega arith) (omega arith)
