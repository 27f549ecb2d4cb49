-- ===== src/Verification/Issued.antt =====
-- The token that `BuildSDJWT` of server/internal/issuance/credential.go returns, presented to
-- `VerifyVpToken` of server/internal/verification/vp.go as it is.
use Prim.Native.String.{◌++◌}
use package.text.Mathlib.TextLemmas.{append-nil}
use xmiete.Prelude.{
  ℕ, String, true, false, Option, List, [], ◌∷◌, arith, ◌≡◌, refl, sym, ap, ◌∙◌, inl,
}
use xmiete.Prelude.Int.{ℤ}
use xmiete.Prelude.Results.{Result, good, ◌>>=◌, within, bind-good, within-good}
use xmiete.Prelude.Split.{join}
use xmiete.Calendar.{Time, after}
use xmiete.Amount.{Amount}
use xmiete.Models.{Deposit}
use xmiete.Crypto.{
  Bytes, Json, Encoding, EncodingLaws, Jwt, JwtLaws, Header, SdJwtClaims, read_back,
}
use xmiete.Issuance.Credential.{
  Signer, sd_specs, disclosures, credential_claims, build_sd_jwt, expiry, pledged_until,
  pledge_date, bank_name, property_address,
}
use xmiete.Verification.Token.{
  VerifiedClaims, issuer_key, with_tildes, verify_vp_token, verify_kb_jwt, verified,
}
use xmiete.Verification.Parts.{presentation, join-tildes}
use xmiete.Verification.RoundTrip.{
  Disclose, disclosures-Disclose, hashes-IsSigned, verify-presentation,
}

-- What a credential says of a deposit: the deposit, the end of the pledge and the time of the issue,
-- then the credential's identifier and the time of the verification.
abbrev pub attested : {A : Type 0} → Deposit A → String → Time → String → Time → VerifiedClaims A
attested d valid_until now credential_id verified_at = record {
  credential_id = credential_id;
  deposit_id = d.id;
  pledge_date = pledge_date now d.pledge;
  statutory_basis = "BGB § 551";
  issuing_bank = bank_name d.provider;
  deposit_amount = d.deposit.amount;
  currency = d.deposit.currency;
  property_address = property_address d.property.address;
  tenant_first_name = d.tenant.first_name;
  tenant_last_name = d.tenant.last_name;
  pledged_until = pledged_until now valid_until;
  verified_at = verified_at;
}

module _ {A : Type 0} ⦃F : Amount A⦄ (E : Encoding A) (laws : EncodingLaws E) {K P : Type 0}
    (J : Jwt K P) (jwt_laws : JwtLaws J) (signer : Signer K) (issuer_url : String) (d : Deposit A)
    (valid_until : String) (index : ℤ) (fresh : String) (now : Time)
    (salts : ℕ → Option Bytes) where
  open jwt_laws use {parse-sign, sign-tilde, sign-nonempty}

  abbrev pub id_of : String
  id_of = "urn:xmiete:credential:" ++ fresh

  abbrev pub specs : List (String × Json A)
  specs = sd_specs E d (pledged_until now valid_until)

  abbrev pub header : Header
  header = record { typ = "vc+sd-jwt"; kid = signer.key_id }

  abbrev pub claims : List String → SdJwtClaims
  claims encs = credential_claims E J signer issuer_url d valid_until index id_of now encs

  -- What `BuildSDJWT` has made when it returns a token.
  abbrev pub Issued : String × String → Type 0
  Issued (token, credential_id) =
      (encs : List String) × (signed : String) × (disclosures E salts 0 specs ≡ good encs)
      × (J.sign signer.key header (claims encs) ≡ good signed)
      × (token ≡ presentation signed encs "")
      × (credential_id ≡ id_of)

  written :
      (signed : String) (encs : List String)
      → Disclose E laws specs encs
      → signed ++ ("~" ++ (join "~" encs ++ "~")) ≡ presentation signed encs ""
  unfolding sd_specs
  written signed [] d = elim d [ ]
  written signed (e ∷ es) d =
      ap (λ t. signed ++ ("~" ++ t)) (join-tildes e es ∙ sym (append-nil (with_tildes (e ∷ es))))

  pub build_sd_jwt-Issued :
      (issued : String × String)
      → build_sd_jwt E J signer issuer_url d valid_until index fresh now salts ≡ good issued
      → Issued issued
  unfolding build_sd_jwt
  build_sd_jwt-Issued (token, credential_id) e =
      let finish : List String → String → Result (String × String) =
        λ encs signed. good (signed ++ ("~" ++ (join "~" encs ++ "~")), id_of) in
      let signing : List String → Result String =
        λ encs. within "issuance: signing credential: " (J.sign signer.key header (claims encs)) in
      let (encs, disclosed, e1) =
        bind-good (disclosures E salts 0 specs) (λ encs. signing encs >>= finish encs)
          (token, credential_id) e in
      let (signed, made, e2) = bind-good (signing encs) (finish encs) (token, credential_id) e1 in
      let sign_made =
        within-good "issuance: signing credential: " (J.sign signer.key header (claims encs)) signed
          made in
      let d = disclosures-Disclose E laws salts 0 specs encs disclosed in
      let token_is : token ≡ presentation signed encs "" =
        rw (sym (written signed encs d)) (ground arith) in
      let cid_is : credential_id ≡ id_of = ground arith in
      (encs, signed, disclosed, sign_made, token_is, cid_is)

  -- A credential that was issued is accepted before it expires, as its issuer made it and without a
  -- key-binding token, and what is verified is what the deposit says.
  pub issued-verified :
      (token credential_id : String)
      → build_sd_jwt E J signer issuer_url d valid_until index fresh now salts
        ≡ good (token, credential_id)
      → (nonce uri : String) (t1 t2 t3 t4 : Time)
      → after (J.numeric_date (expiry now valid_until)) t1 ≡ true
      → after t2 (J.numeric_date (expiry now valid_until)) ≡ false
      → verify_vp_token E J token (J.public_key signer.key) nonce uri (t1, t2, t3, t4)
        ≡ good (attested d valid_until now credential_id t4)
  unfolding sd_specs verified credential_claims verify_kb_jwt
  issued-verified token credential_id e nonce uri t1 t2 t3 t4 valid unexpired =
      let (encs, signed, disclosed, made, token_is, cid_is) =
        build_sd_jwt-Issued (token, credential_id) e in
      let key = J.public_key signer.key in
      rw (token_is, cid_is)
        (verify-presentation E laws J jwt_laws signed (read_back (claims encs)) specs encs "" key
          nonce uri t1 t2 t3 t4 (sign-tilde signer.key header (claims encs) signed made)
          (sign-nonempty signer.key header (claims encs) signed made) (refl, inl refl)
          (parse-sign signer.key header (claims encs) signed (issuer_key key) t1
            (J.numeric_date (expiry now valid_until)) made refl refl valid)
          refl unexpired (disclosures-Disclose E laws salts 0 specs encs disclosed)
          (hashes-IsSigned E laws encs) refl)
