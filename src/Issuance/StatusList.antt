-- ===== src/Issuance/StatusList.antt =====
-- The list of revoked credentials: server/internal/issuance/statuslist.go. A byte is a number below
-- 256. The child Bits says what the list holds.
pub mod Bits
pub mod Revoked
use Prim.Native.Nat.{bit_or}
use Prim.Native.String.{◌++◌}
use xmiete.Prelude.{
  ℕ, zero, suc, ◌+◌, ◌-◌, ◌*◌, ◌/◌, ◌%◌, ◌^◌, ltb, String, Option, none, some, List, [], ◌∷◌,
  if◌then◌else◌,
}
use xmiete.Prelude.Int.{ℤ, pos, negsuc}
use xmiete.Prelude.Results.{Result, good, ◌>>=◌, within, given_or}
use xmiete.Calendar.{Time, day, format_rfc3339}
use xmiete.Crypto.{
  Bytes, Encoding, Jwt, RegisteredClaims, StatusListSubject, StatusListVc, StatusListVcClaims,
}
use xmiete.Issuance.Credential.{Signer}

abbrev pub status_list_size : ℕ
status_list_size = 131072

unfoldable pub zeros : ℕ → Bytes
zeros zero = []
zeros (suc n) = 0 ∷ zeros n

-- bitstring[i] = f(bitstring[i]), which is a panic beyond the end in Go; no index gets there.
unfoldable pub update_at : ℕ → (ℕ → ℕ) → Bytes → Bytes
update_at i f [] = []
update_at zero f (b ∷ bs) = f b ∷ bs
update_at (suc i) f (b ∷ bs) = b ∷ update_at i f bs

unfoldable pub set_bit : ℕ → Bytes → Bytes
unfolding update_at
set_bit idx bits = update_at (idx / 8) (λ b. bit_or b (2 ^ (7 - idx % 8))) bits

-- The loop over the revoked indices.
unfoldable pub set_bits : List ℤ → Bytes → Bytes
set_bits [] bits = bits
set_bits (pos idx ∷ indices) bits =
    set_bits indices (if ltb idx status_list_size then set_bit idx bits else bits)
set_bits (negsuc _ ∷ indices) bits = set_bits indices bits

unfoldable pub bitstring : List ℤ → Bytes
bitstring indices = set_bits indices (zeros (status_list_size / 8))

module _ {A : Type 0} (E : Encoding A) where
  unfoldable pub build_encoded_list : List ℤ → Result String
  unfolding bitstring
  build_encoded_list indices = do zipped ← E.gzip (bitstring indices); good (E.base64 zipped)

  unfoldable pub build_status_list_jwt :
      {K P : Type 0} → Jwt K P → Signer K → String → List ℤ → Time → Result String
  unfolding build_encoded_list
  build_status_list_jwt J signer issuer_url indices now = do
    encoded ← within "status list: encode: " (build_encoded_list indices)
    let url = issuer_url ++ "/v1/status-list/revocation"
    within "status list: sign: " (
        J.sign_list signer.key (record { typ = "vc+ld+jwt"; kid = signer.key_id })
          (record {
            registered = record {
              issuer = issuer_url;
              subject = url;
              issued_at = some (J.numeric_date now);
              expires_at = some (J.numeric_date (now + day));
              id = url;
            };
            vc = record {
              context = "https://www.w3.org/ns/credentials/v2" ∷ [];
              id = url;
              type = "VerifiableCredential" ∷ "BitstringStatusListCredential" ∷ [];
              issuer = issuer_url;
              valid_from = format_rfc3339 now;
              credential_subject = record {
                id = url ++ "#list";
                type = "BitstringStatusList";
                status_purpose = "revocation";
                encoded_list = encoded;
              };
            };
          }))
