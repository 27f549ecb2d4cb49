-- ===== src/Verification/Accepted.antt =====
-- What a token that `VerifyVpToken` of server/internal/verification/vp.go accepts is known to be.
use xmiete.Prelude.{
  String, true, false, not, Option, List, [], ◌∷◌, ◌==◌, arith, ◌≡◌, refl, sym, ◌⊎◌, inl, inr, any,
  All, eq_iff, Bool-cases, else_branch,
}
use xmiete.Prelude.Results.{
  Result, good, ◌>>=◌, bind-good, fail_if-good, within-good, good_injective, if-good, holds,
  not_differs,
}
use xmiete.Prelude.Split.{split, tilde}
use xmiete.Calendar.{Time}
use xmiete.Amount.{Amount}
use xmiete.Crypto.{Json, Encoding, IssuerJwtClaims, KbJwtClaims, Jwt}
use xmiete.Issuance.Credential.{hash_of}
use xmiete.Verification.Token.{
  VerifiedClaims, disclosures_in, kb_jwt_in, issuer_key, is_expired, is_stale, is_audience,
  typ_text, compute_sd_hash, decode_disclosure, verify_disclosures, check_kb_jwt, verify_kb_jwt,
  verified, verify_parts, verify_split, verify_vp_token,
}
use xmiete.Verification.Parts.{IsSigned}

module _ {A : Type 0} (E : Encoding A) where
  verify_disclosures-IsSigned :
      (sd : List String) (before : List (String × Json A)) (encs : List String)
      (disclosed : List (String × Json A))
      → verify_disclosures E sd before encs ≡ good disclosed
      → All (IsSigned E sd) encs
  unfolding verify_disclosures
  verify_disclosures-IsSigned sd before [] disclosed e = tt
  verify_disclosures-IsSigned sd before (enc ∷ encs) disclosed e =
      let rest : String × Json A → Result (List (String × Json A)) =
        λ entry. verify_disclosures E sd (entry ∷ before) encs in
      let (found, e1) =
        fail_if-good (not (any (λ h. h == hash_of E enc) sd)) _ (decode_disclosure E enc >>= rest)
          disclosed e in
      let (entry, _, e2) = bind-good (decode_disclosure E enc) rest disclosed e1 in
      (ground arith, verify_disclosures-IsSigned sd (entry ∷ before) encs disclosed e2)

  -- A key-binding token for this request: it was made for the nonce and the address of the request,
  -- and for these disclosures, not more than five minutes ago.
  abbrev pub IsBound :
      Option String × KbJwtClaims → String → List String → String → String → Time → Type 0
  IsBound (typ, kb) issuer_jwt disclosures nonce uri now =
      (typ_text typ ≡ "kb+jwt")
      × (kb.nonce ≡ nonce)
      × (is_audience kb.audience uri ≡ true)
      × (kb.sd_hash ≡ compute_sd_hash E issuer_jwt disclosures)
      × (is_stale kb.issued_at now ≡ false)

  check_kb_jwt-IsBound :
      (typ : Option String) (kb : KbJwtClaims) (issuer_jwt : String) (disclosures : List String)
      (nonce uri : String) (now : Time)
      → check_kb_jwt E (typ, kb) issuer_jwt disclosures nonce uri now ≡ good tt
      → IsBound (typ, kb) issuer_jwt disclosures nonce uri now
  unfolding check_kb_jwt
  check_kb_jwt-IsBound typ kb issuer_jwt disclosures nonce uri now e =
      let (typ_is, e1) = fail_if-good _ _ _ _ e in
      let (nonce_is, e2) = fail_if-good _ _ _ _ e1 in
      let (uri_is, e3) = fail_if-good _ _ _ _ e2 in
      let (hash_is, e4) = fail_if-good _ _ _ _ e3 in
      let (recent, e5) = fail_if-good _ _ _ _ e4 in
      (
        not_differs (typ_text typ) "kb+jwt" typ_is,
        not_differs kb.nonce nonce nonce_is,
        holds (is_audience kb.audience uri) uri_is,
        not_differs kb.sd_hash (compute_sd_hash E issuer_jwt disclosures) hash_is,
        recent,
      )

  module _ ⦃F : Amount A⦄ {K P : Type 0} (J : Jwt K P) where
    verify_kb_jwt-IsBound :
        (kb_jwt issuer_jwt : String) (disclosures : List String) (nonce uri : String) (now : Time)
        → verify_kb_jwt E J kb_jwt issuer_jwt disclosures nonce uri now ≡ good tt
        → (kb_jwt ≡ "")
          ⊎ ((kb : Option String × KbJwtClaims) × (J.parse_unverified kb_jwt ≡ good kb)
              × IsBound kb issuer_jwt disclosures nonce uri now)
    unfolding verify_kb_jwt
    verify_kb_jwt-IsBound kb_jwt issuer_jwt disclosures nonce uri now e =
        elim (Bool-cases (kb_jwt == "")) [
          | inl empty ↦ inl ((eq_iff kb_jwt "").0 empty)
          | inr present ↦
              let e1 = else_branch _ _ _ _ present e in
              let ((typ, kb), parsed, e2) = bind-good _ _ _ e1 in
              inr (
                (typ, kb),
                within-good _ _ _ parsed,
                check_kb_jwt-IsBound typ kb issuer_jwt disclosures nonce uri now e2,
              )
        ]

    abbrev pub PartsAccepted :
        String
        → List String
        → String
        → P
        → String
        → String
        → Time × Time × Time × Time
        → VerifiedClaims A
        → Type 0
    PartsAccepted issuer_jwt disclosures kb_jwt key nonce uri (t1, t2, t3, t4) result =
        (claims : IssuerJwtClaims) × (disclosed : List (String × Json A)) × (J.parse_with_claims
            issuer_jwt (issuer_key key) t1
          ≡ good claims)
        × (claims.vct ≡ "DepositPledgeAttestation")
        × (is_expired claims.registered.expires_at t2 ≡ false)
        × All (IsSigned E claims.sd) disclosures
        × (verify_disclosures E claims.sd [] disclosures ≡ good disclosed)
        × ((kb_jwt ≡ "")
            ⊎ ((kb : Option String × KbJwtClaims) × (J.parse_unverified kb_jwt ≡ good kb)
                × IsBound kb issuer_jwt disclosures nonce uri t3))
        × (result ≡ verified E claims disclosed t4)

    verify_parts-Accepted :
        (issuer_jwt : String) (disclosures : List String) (kb_jwt : String) (key : P)
        (nonce uri : String) (t1 t2 t3 t4 : Time) (result : VerifiedClaims A)
        → verify_parts E J issuer_jwt disclosures kb_jwt key nonce uri (t1, t2, t3, t4)
          ≡ good result
        → PartsAccepted issuer_jwt disclosures kb_jwt key nonce uri (t1, t2, t3, t4) result
    unfolding verify_parts
    verify_parts-Accepted issuer_jwt disclosures kb_jwt key nonce uri t1 t2 t3 t4 result e =
        let (claims, parsed, e1) = bind-good _ _ _ e in
        let (vct, e2) = fail_if-good _ _ _ _ e1 in
        let (unexpired, e3) = fail_if-good _ _ _ _ e2 in
        let (disclosed, taken, e4) = bind-good _ _ _ e3 in
        let (_, bound, e5) = bind-good _ _ _ e4 in
        (
          claims,
          disclosed,
          within-good _ _ _ parsed,
          not_differs claims.vct "DepositPledgeAttestation" vct,
          unexpired,
          verify_disclosures-IsSigned claims.sd [] disclosures disclosed taken,
          taken,
          verify_kb_jwt-IsBound kb_jwt issuer_jwt disclosures nonce uri t3 bound,
          sym (good_injective _ _ e5),
        )

    -- The issuer's token and what follows it.
    abbrev pub Accepted :
        String → P → String → String → Time × Time × Time × Time → VerifiedClaims A → Type 0
    Accepted token key nonce uri times result =
        (issuer_jwt : String) × (parts : List String) × (split tilde token ≡ issuer_jwt ∷ parts)
        × PartsAccepted issuer_jwt (disclosures_in parts) (kb_jwt_in "" parts) key nonce uri times
            result

    verify_split-Accepted :
        (token : String) (key : P) (nonce uri : String) (times : Time × Time × Time × Time)
        (result : VerifiedClaims A) (all : List String)
        → split tilde token ≡ all
        → verify_split E J all key nonce uri times ≡ good result
        → Accepted token key nonce uri times result
    unfolding verify_split
    verify_split-Accepted token key nonce uri times result [] cut e = ground arith
    verify_split-Accepted token key nonce uri (t1, t2, t3, t4) result (jwt ∷ parts) cut e =
        let (present, e1) = if-good _ _ _ _ e in
        (
          jwt,
          parts,
          cut,
          verify_parts-Accepted jwt (disclosures_in parts) (kb_jwt_in "" parts) key nonce uri t1 t2
              t3 t4 result e1,
        )

    -- A token that is accepted has an issuer's token whose signature was checked, of the right type
    -- and not expired; every disclosure with it is signed by its hash; a key-binding token with it
    -- was made for this request and these disclosures; and the result says what these claims and
    -- disclosures say.
    pub verify_vp_token-Accepted :
        (token : String) (key : P) (nonce uri : String) (t1 t2 t3 t4 : Time)
        (result : VerifiedClaims A)
        → verify_vp_token E J token key nonce uri (t1, t2, t3, t4) ≡ good result
        → Accepted token key nonce uri (t1, t2, t3, t4) result
    unfolding verify_vp_token
    verify_vp_token-Accepted token key nonce uri t1 t2 t3 t4 result e =
        verify_split-Accepted token key nonce uri (t1, t2, t3, t4) result (split tilde token) refl e
