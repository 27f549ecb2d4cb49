-- ===== src/Tests/Signatures.antt =====
-- Signatures that keep the laws of Crypto.antt: a key signs one document only.
use mathlib.Core.Path.{subst}
use xmiete.Prelude.{String, Option, none, some, ◌==◌, ◌≡◌, refl, sym, ap, arith, if◌then◌else◌}
use xmiete.Prelude.Results.{Result, good, bad, ◌>>=◌}
use xmiete.Calendar.{Time, after}
use xmiete.Crypto.{
  RegisteredClaims, CredentialStatus, SdJwtClaims, IssuerJwtClaims, KbJwtClaims, ecdsa, Jwt, Header,
  JwtLaws, read_back,
}
use xmiete.Tests.Same.{Same, same_text, same_number, same_list, same_option}

infixl 5 ◌>>?◌
abbrev ◌>>?◌ : {R T : Type 0} → Option R → (R → Option T) → Option T
none >>? f = none
some r >>? f = f r

same_status : Same CredentialStatus
unfolding same_text
same_status c d = same_text c.id d.id >>? λ p. same_text c.type d.type >>? λ q.
    same_text c.status_purpose d.status_purpose >>? λ r.
    same_text c.status_list_index d.status_list_index >>? λ s.
    same_text c.status_list_credential d.status_list_credential >>? λ t. some (λ i. record {
      id = p i;
      type = q i;
      status_purpose = r i;
      status_list_index = s i;
      status_list_credential = t i;
    })

same_registered : Same RegisteredClaims
unfolding same_text same_option same_number
same_registered c d = same_text c.issuer d.issuer >>? λ p. same_text c.subject d.subject >>? λ q.
    same_option same_number c.issued_at d.issued_at >>? λ r.
    same_option same_number c.expires_at d.expires_at >>? λ s. same_text c.id d.id >>? λ t.
    some (λ i. record { issuer = p i; subject = q i; issued_at = r i; expires_at = s i; id = t i })

same_claims : Same SdJwtClaims
unfolding same_text same_option same_list same_registered same_status
same_claims c d = same_registered c.registered d.registered >>? λ p. same_text c.vct d.vct >>? λ q.
    same_text c.sd_alg d.sd_alg >>? λ r. same_list same_text c.sd d.sd >>? λ s.
    same_text c.deposit_id d.deposit_id >>? λ t. same_text c.pledge_date d.pledge_date >>? λ u.
    same_text c.statutory_basis d.statutory_basis >>? λ v.
    same_text c.issuing_bank d.issuing_bank >>? λ w.
    same_text c.issuing_bank_id d.issuing_bank_id >>? λ x.
    same_text c.property_id d.property_id >>? λ y.
    same_option same_status c.credential_status d.credential_status >>? λ z. some (λ i. record {
      registered = p i;
      vct = q i;
      sd_alg = r i;
      sd = s i;
      deposit_id = t i;
      pledge_date = u i;
      statutory_basis = v i;
      issuing_bank = w i;
      issuing_bank_id = x i;
      property_id = y i;
      credential_status = z i;
    })

signature : {R : Type 0} → String → Option R → Result String
signature token none = bad "not the document of this key"
signature token (some _) = good token

signature-good :
    {R : Type 0} (token : String) (o : Option R) (s : String)
    → signature token o ≡ good s
    → (r : R) × (o ≡ some r) × (s ≡ token)
unfolding signature
signature-good token none s e = ground arith
signature-good token (some r) s e = (r, refl, ground arith)

-- A token is valid before its expiry, and `kb` is a token for a nonce, an address and a hash.
read_token : String → String → Result SdJwtClaims → Time → Result IssuerJwtClaims
read_token token s (bad e) now = bad e
read_token token s (good key) now =
    if s == token
    then elim key.registered.expires_at [
      | none ↦ good (read_back key)
      | some t ↦ if after t now then good (read_back key) else bad "token is expired"
    ]
    else bad "token is malformed"

module _ (kb : KbJwtClaims) where
  unfoldable pub jwt : Jwt SdJwtClaims SdJwtClaims
  unfolding same_claims signature read_token
  jwt = record {
    public_key = λ key. key;
    numeric_date = λ t. t;
    sign = λ key header claims. signature "jwt" (same_claims claims key);
    sign_list = λ key header claims. good "list";
    parse_with_claims = λ s key_for now. read_token "jwt" s (key_for ecdsa) now;
    parse_unverified = λ s. if s == "kb.jwt" then good (some "kb+jwt", kb) else bad "malformed";
  }

  pub jwt_laws : JwtLaws jwt
  unfolding jwt read_token
  jwt_laws = record {
    parse-sign = λ key header claims s key_for now expires signed gives until valid.
        let (p, same, token) = signature-good "jwt" (same_claims claims key) s signed in
        let ends = subst (λ (c : SdJwtClaims). c.registered.expires_at ≡ some expires) p until in
        rw (gives, token, ends, valid) (ap (λ (c : SdJwtClaims). good (read_back c)) (sym p));
    sign-tilde = λ key header claims s signed.
        let (p, same, token) = signature-good "jwt" (same_claims claims key) s signed in
        rw token refl;
    sign-nonempty = λ key header claims s signed.
        let (p, same, token) = signature-good "jwt" (same_claims claims key) s signed in
        rw token refl;
  }

-- One key, which signs one document as a token in three parts.
module _ (document : SdJwtClaims) (kb : KbJwtClaims) where
  unfoldable pub compact_jwt : Jwt (Unit {0}) (Unit {0})
  unfolding same_claims signature read_token
  compact_jwt = record {
    public_key = λ key. key;
    numeric_date = λ t. t;
    sign = λ key header claims. signature "h.e.s" (same_claims claims document);
    sign_list = λ key header claims. good "list";
    parse_with_claims =
        λ s key_for now. read_token "h.e.s" s (key_for ecdsa >>= λ _. good document) now;
    parse_unverified = λ s. if s == "kb.jwt" then good (some "kb+jwt", kb) else bad "malformed";
  }

  pub signed_document :
      (key : Unit {0}) (header : Header) (claims : SdJwtClaims) (s : String)
      → compact_jwt.sign key header claims ≡ good s
      → (claims ≡ document) × (s ≡ "h.e.s")
  unfolding compact_jwt
  signed_document key header claims s signed =
      let (p, same, token) = signature-good "h.e.s" (same_claims claims document) s signed in
      (p, token)

  pub compact_laws : JwtLaws compact_jwt
  unfolding compact_jwt read_token
  compact_laws = record {
    parse-sign = λ key header claims s key_for now expires signed gives until valid.
        let (p, token) = signed_document key header claims s signed in
        let ends = subst (λ (c : SdJwtClaims). c.registered.expires_at ≡ some expires) p until in
        rw (gives, token, ends, valid) (ap (λ (c : SdJwtClaims). good (read_back c)) (sym p));
    sign-tilde = λ key header claims s signed.
        let (p, token) = signed_document key header claims s signed in rw token refl;
    sign-nonempty = λ key header claims s signed.
        let (p, token) = signed_document key header claims s signed in rw token refl;
  }
