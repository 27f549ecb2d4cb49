-- ===== src/Sdk/Openid4vp/Accepted.antt =====
-- What a token that `VerifyVpToken` of sdk-examples/go/openid4vp/service.go accepts is known to be.
use xmiete.Prelude.{
  String, Bool, true, false, not, List, [], ◌∷◌, ◌==◌, arith, ◌≡◌, refl, sym, ◌⊎◌, inl, inr, ◌||◌,
  any, All, eq_iff, Bool-cases, if◌then◌else◌, else_branch,
}
use xmiete.Prelude.Int.{pos, negsuc, ◌+ℤ◌, leb_ℤ}
use xmiete.Prelude.Results.{
  Result, good, ◌>>=◌, bind-good, fail_if-good, within-good, good_injective, if-good, holds,
  not_differs,
}
use xmiete.Prelude.Split.{split, split_n, tilde, stop}
use xmiete.Calendar.{Time, unix}
use xmiete.Crypto.{Bytes, Encoding}
use xmiete.Issuance.Credential.{hash_of}
use xmiete.Verification.Parts.{IsSigned}
use xmiete.Sdk.Openid4vp.Models.{VerifiedClaims, IssuerClaims}
use xmiete.Sdk.Openid4vp.Token.{
  KbPayload, Decoder, last_part, disclosure_encodings, verify_issuer_jwt, decode_disclosure,
  verify_disclosures, check_typ, expected_sd_hash, check_payload, verify_kb_parts, verify_kb_jwt,
  verified, verify_parts, verify_split, verify_vp_token,
}

module _ {A : Type 0} (E : Encoding A) (D : Decoder A) where
  verify_disclosures-IsSigned :
      (sd : List String) (before : List (String × Bytes)) (encs : List String)
      (disclosed : List (String × Bytes))
      → verify_disclosures E D sd before encs ≡ good disclosed
      → All (IsSigned E sd) encs
  unfolding verify_disclosures
  verify_disclosures-IsSigned sd before [] disclosed e = tt
  verify_disclosures-IsSigned sd before (enc ∷ encs) disclosed e =
      let (found, e1) = fail_if-good (not (any (λ h. h == hash_of E enc) sd)) _ _ _ e in
      let (entry, _, e2) = bind-good (decode_disclosure E D enc) _ _ e1 in
      (
        holds (any (λ h. h == hash_of E enc) sd) found,
        verify_disclosures-IsSigned sd (entry ∷ before) encs disclosed e2,
      )

  -- A key-binding token for this request: its payload has the nonce and the address of the request
  -- and the hash of these disclosures, and was made at most five minutes ago, or not more than half
  -- a minute ahead of the verifier's clock.
  abbrev pub IsBound : KbPayload → String → List String → String → String → Time → Type 0
  IsBound p issuer_jwt disclosures nonce uri now =
      (p.nonce ≡ nonce)
      × (p.aud ≡ uri)
      × (p.sd_hash ≡ expected_sd_hash E D issuer_jwt disclosures)
      × (leb_ℤ p.iat (unix now +ℤ pos 30) ≡ true)
      × (leb_ℤ (unix now +ℤ negsuc 299) p.iat ≡ true)

  fresh : (a b : Bool) → (not a || not b) ≡ false → (a ≡ true) × (b ≡ true)
  fresh true b e = (refl, holds b e)
  fresh false b e = ground arith

  check_payload-IsBound :
      (p : KbPayload) (issuer_jwt : String) (disclosures : List String) (nonce uri : String)
      (now : Time)
      → check_payload E D p issuer_jwt disclosures nonce uri now ≡ good tt
      → IsBound p issuer_jwt disclosures nonce uri now
  unfolding check_payload
  check_payload-IsBound p issuer_jwt disclosures nonce uri now e =
      let (nonce_is, e1) = fail_if-good _ _ _ _ e in
      let (uri_is, e2) = fail_if-good _ _ _ _ e1 in
      let (hash_is, e3) = fail_if-good _ _ _ _ e2 in
      let (recent, e4) = fail_if-good _ _ _ _ e3 in
      let (past, young) =
        fresh (leb_ℤ p.iat (unix now +ℤ pos 30)) (leb_ℤ (unix now +ℤ negsuc 299) p.iat) recent in
      (
        not_differs p.nonce nonce nonce_is,
        not_differs p.aud uri uri_is,
        not_differs p.sd_hash (expected_sd_hash E D issuer_jwt disclosures) hash_is,
        past,
        young,
      )

  -- The parts of a key-binding token, its header and its payload.
  abbrev pub BoundBy : List String → String → List String → String → String → Time → Type 0
  BoundBy parts issuer_jwt disclosures nonce uri now =
      (header payload : String) × (rest : List String) × (raw raw' : Bytes) × (p : KbPayload)
      × (parts ≡ header ∷ payload ∷ rest)
      × (E.unbase64 header ≡ good raw)
      × (D.kb_header raw ≡ (false, "kb+jwt"))
      × (E.unbase64 payload ≡ good raw')
      × (D.kb_payload raw' ≡ good p)
      × IsBound p issuer_jwt disclosures nonce uri now

  typ_checked :
      (h : Bool × String) (m : Result (Unit {0}))
      → (check_typ E D h >>= λ _. m) ≡ good tt
      → (h ≡ (false, "kb+jwt")) × (m ≡ good tt)
  typ_checked (true, typ) m e = ground arith
  typ_checked (false, typ) m e =
      let (is_kb, e1) = fail_if-good (not (typ == "kb+jwt")) _ m tt e in
      (λ i. (false, not_differs typ "kb+jwt" is_kb i), e1)

  verify_kb_parts-BoundBy :
      (parts : List String) (issuer_jwt : String) (disclosures : List String) (nonce uri : String)
      (now : Time)
      → verify_kb_parts E D parts issuer_jwt disclosures nonce uri now ≡ good tt
      → BoundBy parts issuer_jwt disclosures nonce uri now
  verify_kb_parts-BoundBy [] issuer_jwt disclosures nonce uri now e = ground arith
  verify_kb_parts-BoundBy (header ∷ []) issuer_jwt disclosures nonce uri now e = ground arith
  verify_kb_parts-BoundBy (header ∷ payload ∷ rest) issuer_jwt disclosures nonce uri now e =
      let (raw, decoded, e1) = bind-good _ _ _ e in
      let (typ_is, e2) = typ_checked (D.kb_header raw) _ e1 in
      let (raw', decoded', e3) = bind-good _ _ _ e2 in
      let (p, parsed, e4) = bind-good _ _ _ e3 in
      (
        header,
        payload,
        rest,
        raw,
        raw',
        p,
        refl,
        within-good _ _ _ decoded,
        typ_is,
        within-good _ _ _ decoded',
        within-good _ _ _ parsed,
        check_payload-IsBound p issuer_jwt disclosures nonce uri now e4,
      )

  abbrev pub PartsAccepted :
      String
      → List String
      → String
      → String
      → String
      → Time × Time × Time
      → VerifiedClaims A
      → Type 0
  PartsAccepted issuer_jwt disclosures kb_jwt nonce uri (t1, t2, t3) result =
      (claims : IssuerClaims) × (disclosed : List (String × Bytes)) × (verify_issuer_jwt E D
          issuer_jwt
        ≡ good claims)
      × (leb_ℤ claims.exp (unix t1) ≡ false)
      × All (IsSigned E claims.sd_hashes) disclosures
      × (verify_disclosures E D claims.sd_hashes [] disclosures ≡ good disclosed)
      × ((kb_jwt ≡ "") ⊎ BoundBy (split_n 3 stop kb_jwt) issuer_jwt disclosures nonce uri t2)
      × (result ≡ verified E D claims disclosed t3)

  kb_checked :
      (kb_jwt issuer_jwt : String) (disclosures : List String) (nonce uri : String) (now : Time)
      → (if kb_jwt == ""
          then good tt
          else verify_kb_jwt E D kb_jwt issuer_jwt disclosures nonce uri now)
        ≡ good tt
      → (kb_jwt ≡ "") ⊎ BoundBy (split_n 3 stop kb_jwt) issuer_jwt disclosures nonce uri now
  unfolding verify_kb_jwt
  kb_checked kb_jwt issuer_jwt disclosures nonce uri now e = elim (Bool-cases (kb_jwt == "")) [
    | inl empty ↦ inl ((eq_iff kb_jwt "").0 empty)
    | inr present ↦ inr (
        verify_kb_parts-BoundBy (split_n 3 stop kb_jwt) issuer_jwt disclosures nonce uri now
          (else_branch _ _ _ _ present e))
  ]

  verify_parts-Accepted :
      (issuer_jwt : String) (disclosures : List String) (kb_jwt nonce uri : String)
      (t1 t2 t3 : Time) (result : VerifiedClaims A)
      → verify_parts E D issuer_jwt disclosures kb_jwt nonce uri (t1, t2, t3) ≡ good result
      → PartsAccepted issuer_jwt disclosures kb_jwt nonce uri (t1, t2, t3) result
  unfolding verify_parts
  verify_parts-Accepted issuer_jwt disclosures kb_jwt nonce uri t1 t2 t3 result e =
      let (claims, parsed, e1) = bind-good _ _ _ e in
      let (unexpired, e2) = fail_if-good _ _ _ _ e1 in
      let (disclosed, taken, e3) = bind-good _ _ _ e2 in
      let (_, bound, e4) = bind-good _ _ _ e3 in
      (
        claims,
        disclosed,
        within-good _ _ _ parsed,
        unexpired,
        verify_disclosures-IsSigned claims.sd_hashes [] disclosures disclosed taken,
        taken,
        kb_checked kb_jwt issuer_jwt disclosures nonce uri t2 bound,
        sym (good_injective _ _ e4),
      )

  -- The issuer's token and what follows it.
  abbrev pub Accepted : String → String → String → Time × Time × Time → VerifiedClaims A → Type 0
  Accepted token nonce uri times result =
      (issuer_jwt : String) × (parts : List String) × (split tilde token ≡ issuer_jwt ∷ parts)
      × PartsAccepted issuer_jwt (disclosure_encodings parts) (last_part parts) nonce uri times
          result

  verify_split-Accepted :
      (token nonce uri : String) (t1 t2 t3 : Time) (result : VerifiedClaims A) (all : List String)
      → split tilde token ≡ all
      → verify_split E D all nonce uri (t1, t2, t3) ≡ good result
      → Accepted token nonce uri (t1, t2, t3) result
  unfolding verify_split
  verify_split-Accepted token nonce uri t1 t2 t3 result [] cut e = ground arith
  verify_split-Accepted token nonce uri t1 t2 t3 result (jwt ∷ parts) cut e =
      let (present, e1) = if-good _ _ _ _ e in
      (
        jwt,
        parts,
        cut,
        verify_parts-Accepted jwt (disclosure_encodings parts) (last_part parts) nonce uri t1 t2 t3
            result e1,
      )

  -- A token that the SDK accepts has an issuer's token whose payload has not expired; each of its
  -- disclosures is signed by its hash; if its last part is not empty, it is a key-binding token
  -- that was made for this request and these disclosures, at most five minutes ago or half a minute
  -- ahead; and the result says what the payload and the disclosures say.
  pub verify_vp_token-Accepted_sdk :
      (token nonce uri : String) (t1 t2 t3 : Time) (result : VerifiedClaims A)
      → verify_vp_token E D token nonce uri (t1, t2, t3) ≡ good result
      → Accepted token nonce uri (t1, t2, t3) result
  unfolding verify_vp_token
  verify_vp_token-Accepted_sdk token nonce uri t1 t2 t3 result e =
      verify_split-Accepted token nonce uri t1 t2 t3 result (split tilde token) refl e
