-- ===== src/Sdk/Openid4vp/Issued.antt =====
-- The token that `BuildSDJWT` of server/internal/issuance/credential.go returns, presented to the
-- SDK's `VerifyVpToken` as it is.
use Prim.Native.String.{◌++◌}
use xmiete.Prelude.{
  ℕ, String, false, Option, some, List, [], ◌≡◌, refl, ap, Pairwise, filled, lookup,
}
use xmiete.Prelude.Int.{ℤ, leb_ℤ}
use xmiete.Prelude.Results.{good}
use xmiete.Calendar.{Time, unix}
use xmiete.Amount.{Amount}
use xmiete.Models.{Deposit}
use xmiete.Crypto.{Bytes, Json, Encoding, EncodingLaws, Jwt, JwtLaws, SdJwtClaims, Header}
use xmiete.Issuance.Credential.{
  Signer, hashes, sd_specs, disclosures, credential_claims, build_sd_jwt, expiry, pledged_until,
  pledge_date, bank_name, property_address,
}
use xmiete.Verification.Parts.{split-presentation}
use xmiete.Verification.RoundTrip.{
  Disclose-parts, disclosures-Disclose, disclosures-Pairwise, hashes-IsSigned,
}
use xmiete.Verification.Issued.{build_sd_jwt-Issued}
use xmiete.Sdk.Openid4vp.Models.{VerifiedClaims}
use xmiete.Sdk.Openid4vp.Token.{Decoder, verified, verify_parts, verify_split, verify_vp_token}
use xmiete.Sdk.Openid4vp.Wire.{
  WireLaws, payload_of, presented_parts, verify_issuer_jwt-sign, new_sd_disclosure-IsRead, IsRead,
  Agrees, verify_disclosures-Agrees, text_found, float_found,
}

-- What a credential says of a deposit, as the SDK has it.
abbrev pub attested : {A : Type 0} → Deposit A → String → Time → String → Time → VerifiedClaims A
attested d valid_until now credential_id verified_at = record {
  credential_id = credential_id;
  deposit_id = d.id;
  pledge_date = pledge_date now d.pledge;
  statutory_basis = "BGB § 551";
  issuing_bank = bank_name d.provider;
  deposit_amount = some d.deposit.amount;
  currency = some d.deposit.currency;
  property_address = some (property_address d.property.address);
  tenant_first_name = some d.tenant.first_name;
  tenant_last_name = some d.tenant.last_name;
  pledged_until = some (pledged_until now valid_until);
  verified_at = verified_at;
}

module _ {A : Type 0} ⦃F : Amount A⦄ (E : Encoding A) (laws : EncodingLaws E) {K P : Type 0}
    (J : Jwt K P) (jwt_laws : JwtLaws J) (D : Decoder A) (wire : WireLaws E J D) (signer : Signer K)
    (issuer_url : String) (d : Deposit A) (valid_until : String) (index : ℤ) (fresh : String)
    (now : Time) (salts : ℕ → Option Bytes) where
  open jwt_laws use {sign-tilde, sign-nonempty}

  abbrev stated : List (String × Json A)
  stated = sd_specs E d (pledged_until now valid_until)

  abbrev signed_claims : String → List String → SdJwtClaims
  signed_claims credential_id encs =
      credential_claims E J signer issuer_url d valid_until index credential_id now encs

  -- What the SDK makes of the claims and of entries that agree with what was disclosed.
  verified-attested :
      (credential_id : String) (encs : List String) (entries : List (String × Bytes)) (t : Time)
      → Pairwise (Agrees E laws J D wire) stated entries
      → verified E D (payload_of (signed_claims credential_id encs)) (filled [] entries) t
        ≡ attested d valid_until now credential_id t
  unfolding verified credential_claims sd_specs lookup
  verified-attested credential_id encs entries t agree =
      let reads = λ (k : String). text_found E laws J D wire k stated entries agree in
      λ i. record {
        credential_id = credential_id;
        deposit_id = d.id;
        pledge_date = pledge_date now d.pledge;
        statutory_basis = "BGB § 551";
        issuing_bank = bank_name d.provider;
        deposit_amount =
            float_found E laws J D wire "deposit_amount" stated entries agree d.deposit.amount refl
              i;
        currency = reads "currency" d.deposit.currency refl i;
        property_address = reads "property_address" (property_address d.property.address) refl i;
        tenant_first_name = reads "tenant_first_name" d.tenant.first_name refl i;
        tenant_last_name = reads "tenant_last_name" d.tenant.last_name refl i;
        pledged_until = reads "pledged_until" (pledged_until now valid_until) refl i;
        verified_at = t;
      }

  abbrev header_of : Header
  header_of = record { typ = "vc+sd-jwt"; kid = signer.key_id }

  issued_parts :
      (credential_id : String) (encs : List String) (signed nonce uri : String) (t1 t2 t3 : Time)
      → disclosures E salts 0 stated ≡ good encs
      → J.sign signer.key header_of (signed_claims credential_id encs) ≡ good signed
      → leb_ℤ (unix (J.numeric_date (expiry now valid_until))) (unix t1) ≡ false
      → verify_parts E D signed encs "" nonce uri (t1, t2, t3)
        ≡ good (attested d valid_until now credential_id t3)
  unfolding verify_parts credential_claims
  issued_parts credential_id encs signed nonce uri t1 t2 t3 disclosed made unexpired =
      let issued = signed_claims credential_id encs in
      let reads =
        disclosures-Pairwise E (IsRead E laws J D wire) (new_sd_disclosure-IsRead E laws J D wire)
          salts 0 stated encs disclosed in
      let (entries, agree, taken) =
        verify_disclosures-Agrees E laws J D wire (hashes E encs) [] stated encs reads
          (hashes-IsSigned E laws encs) in
      rw
        (
          verify_issuer_jwt-sign E laws J D wire signer.key header_of issued signed made,
          unexpired,
          taken,
        )
        (ap good (verified-attested credential_id encs entries t3 agree))

  -- A credential that the server issued is accepted by the SDK before the second of its expiry, as
  -- its issuer made it and without a key-binding token, and what the SDK returns is what the deposit
  -- says.
  pub issued-verified_by_sdk :
      (token credential_id : String)
      → build_sd_jwt E J signer issuer_url d valid_until index fresh now salts
        ≡ good (token, credential_id)
      → (nonce uri : String) (t1 t2 t3 : Time)
      → leb_ℤ (unix (J.numeric_date (expiry now valid_until))) (unix t1) ≡ false
      → verify_vp_token E D token nonce uri (t1, t2, t3)
        ≡ good (attested d valid_until now credential_id t3)
  unfolding verify_vp_token verify_split verify_parts credential_claims
  issued-verified_by_sdk token credential_id e nonce uri t1 t2 t3 unexpired =
      let (encs, signed, disclosed, made, token_is, cid_is) =
        build_sd_jwt-Issued E laws J jwt_laws signer issuer_url d valid_until index fresh now salts
          (token, credential_id) e in
      let id = "urn:xmiete:credential:" ++ fresh in
      let parts =
        Disclose-parts E laws stated encs
          (disclosures-Disclose E laws salts 0 stated encs disclosed) in
      let whole = sign-tilde signer.key header_of (signed_claims id encs) signed made in
      let present = sign-nonempty signer.key header_of (signed_claims id encs) signed made in
      let accepted = issued_parts id encs signed nonce uri t1 t2 t3 disclosed made unexpired in
      let sorted = presented_parts encs "" parts in
      rw
        (
          token_is,
          cid_is,
          split-presentation signed encs "" whole parts refl,
          present,
          sorted.0,
          sorted.1,
        )
        accepted
