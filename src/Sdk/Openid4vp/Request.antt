-- ===== src/Sdk/Openid4vp/Request.antt =====
-- `BuildVpRequest` and `newUUID` of sdk-examples/go/openid4vp/service.go. A text is built from its
-- signs, and a byte is a number below 256.
use Prim.Native.Char.{Char}
use Prim.Native.Nat.{bit_and, bit_or}
use xmiete.Prelude.{ℕ, zero, suc, ◌/◌, ◌%◌, String, true, false, Option, none, some, List, [], ◌∷◌}
use xmiete.Prelude.Results.{Result, good, ◌>>=◌, given_or, within}
use xmiete.Crypto.{Bytes}
use xmiete.Sdk.Openid4vp.Models.{Field, VpRequest, VpRequestResult}

-- b[i] = f(b[i])
abbrev pub change : ℕ → (ℕ → ℕ) → Bytes → Bytes
change i f [] = []
change zero f (b ∷ bs) = f b ∷ bs
change (suc i) f (b ∷ bs) = b ∷ change i f bs

abbrev pub sign_in : String → ℕ → Char
sign_in String.[] i = "?"
sign_in (String.◌∷◌ c s) zero = c
sign_in (String.◌∷◌ c s) (suc i) = sign_in s i

-- A digit of fmt's `%x`.
unfoldable pub hex_digit : ℕ → Char
hex_digit n = sign_in "0123456789abcdef" n

-- fmt's `%x` of the first bytes of a slice, two digits each, and what follows of the format.
unfoldable pub hex : ℕ → (Bytes → String) → Bytes → String
unfolding hex_digit
hex zero next bs = next bs
hex (suc n) next [] = next []
hex (suc n) next (b ∷ bs) =
    String.◌∷◌ (hex_digit (b / 16)) (String.◌∷◌ (hex_digit (b % 16)) (hex n next bs))

abbrev pub dash : (Bytes → String) → Bytes → String
dash next bs = String.◌∷◌ "-" (next bs)

unfoldable pub uuid_text : Bytes → String
unfolding hex
uuid_text = hex 4 (dash (hex 2 (dash (hex 2 (dash (hex 2 (dash (hex 6 λ _. ""))))))))

-- Version 4, and the bits of the variant.
abbrev pub version_4 : ℕ → ℕ
version_4 b = bit_or (bit_and b 0x0f) 0x40

abbrev pub variant : ℕ → ℕ
variant b = bit_or (bit_and b 0x3f) 0x80

-- `random` is the answer of rand.Read for 16 bytes; "rand" stands for the text of its error.
unfoldable pub new_uuid : Option Bytes → Result String
unfolding uuid_text
new_uuid random = do
  b ← given_or "rand" random
  good (uuid_text (change 8 variant (change 6 version_4 b)))

abbrev demanded : String → Field
demanded path = record { path = path ∷ []; filter = none; is_optional = false }

abbrev wished : String → Field
wished path = record { path = path ∷ []; filter = none; is_optional = true }

abbrev pub requested_fields : List Field
requested_fields =
    record {
      path = "$.vct" ∷ [];
      filter = some (record { type = "string"; const = some "DepositPledgeAttestation" });
      is_optional = false;
    }
    ∷ demanded "$.deposit_id"
    ∷ demanded "$.pledge_date"
    ∷ demanded "$.statutory_basis"
    ∷ demanded "$.issuing_bank"
    ∷ wished "$.deposit_amount"
    ∷ wished "$.currency"
    ∷ wished "$.property_address"
    ∷ wished "$.tenant_first_name"
    ∷ wished "$.tenant_last_name"
    ∷ wished "$.pledged_until"
    ∷ []

abbrev pub vp_request : String → String → String → String → VpRequest
vp_request client_id deposit_id response_uri nonce = record {
  client_id = client_id;
  response_type = "vp_token";
  response_mode = "direct_post";
  response_uri = response_uri;
  nonce = nonce;
  state = deposit_id;
  presentation_definition = record {
    id = "deposit-pledge-attestation-pd";
    input_descriptors =
        record {
          id = "deposit-pledge-attestation";
          format = ("vc+sd-jwt", record { alg = "ES256" ∷ [] }) ∷ [];
          constraints = record { limit_disclosure = "required"; fields = requested_fields };
        }
        ∷ [];
  };
}

unfoldable pub build_vp_request : String → Option Bytes → String → String → Result VpRequestResult
unfolding new_uuid
build_vp_request client_id random deposit_id response_uri = do
  nonce ← within "openid4vp: generate nonce: " (new_uuid random)
  good (record { nonce = nonce; vp_request = vp_request client_id deposit_id response_uri nonce })
