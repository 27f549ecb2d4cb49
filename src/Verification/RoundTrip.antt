-- ===== src/Verification/RoundTrip.antt =====
-- What server/internal/issuance/credential.go signs, server/internal/verification/vp.go accepts.
use Prim.Native.String.{◌++◌}
use xmiete.Prelude.{
  ℕ, suc, String, false, Option, none, some, List, [], ◌∷◌, ◌==◌, arith, ◌≡◌, refl, sym, ap, ◌∙◌,
  All, Pairwise, filled, eq_refl,
}
use xmiete.Prelude.Results.{good, ◌>>=◌, given_or, within, bind-good, within-good, given_or-good}
use xmiete.Prelude.Split.{has_sign, tilde}
use xmiete.Calendar.{Time}
use xmiete.Amount.{Amount}
use xmiete.Crypto.{Bytes, Json, text, Encoding, EncodingLaws, Jwt, JwtLaws, IssuerJwtClaims}
use xmiete.Issuance.Credential.{hash_of, hashes, new_sd_disclosure, disclosures}
use xmiete.Verification.Token.{
  issuer_key, is_expired, verified, decode_disclosure, verify_disclosures, verify_parts,
  verify_split, verify_kb_jwt, verify_vp_token,
}
use xmiete.Verification.Parts.{
  IsPart, IsSigned, followed, presentation, IsKbJwt, split-presentation, disclosures_in-shown,
  kb_jwt_in-shown,
}

-- What holds of each disclosure that is made holds of all of them.
module _ {A : Type 0} (E : Encoding A) (Q : String × Json A → String → Type 0)
    (each : (salt : Option Bytes) (name : String) (value : Json A) (enc : String)
      → new_sd_disclosure E salt name value ≡ good enc
      → Q (name, value) enc) where
  pub disclosures-Pairwise :
      (salts : ℕ → Option Bytes) (i : ℕ) (specs : List (String × Json A)) (encs : List String)
      → disclosures E salts i specs ≡ good encs
      → Pairwise Q specs encs
  unfolding disclosures
  disclosures-Pairwise salts i [] [] e = tt
  disclosures-Pairwise salts i [] (enc ∷ encs) e = ground arith
  disclosures-Pairwise salts i ((name, value) ∷ specs) encs e =
      let about = "issuance: disclosure for " ++ (E.quote name ++ ": ") in
      let made = new_sd_disclosure E (salts i) name value in
      let others = disclosures E salts (suc i) specs in
      let (enc, first, e1) =
        bind-good (within about made) (λ enc. others >>= λ rest. good (enc ∷ rest)) encs e in
      let (rest, second, e2) = bind-good others (λ rest. good (enc ∷ rest)) encs e1 in
      let joined : enc ∷ rest ≡ encs = ground arith in
      rw (sym joined) (
        each (salts i) name value enc (within-good about made enc first),
        disclosures-Pairwise salts (suc i) specs rest second,
      )

module _ {A : Type 0} (E : Encoding A) (laws : EncodingLaws E) where
  open laws use {unbase64-base64, unmarshal-marshal, base64-marshal, base64-tilde, base64-stop}

  -- A disclosure of a name and a value.
  abbrev pub IsDisclosure : String × Json A → String → Type 0
  IsDisclosure entry enc = IsPart enc × (decode_disclosure E enc ≡ good entry)

  abbrev pub Disclose : List (String × Json A) → List String → Type 0
  Disclose [] [] = Unit
  Disclose (entry ∷ entries) (enc ∷ encs) = IsDisclosure entry enc × Disclose entries encs
  Disclose _ _ = ⊥

  new_sd_disclosure-IsDisclosure :
      (salt : Option Bytes) (name : String) (value : Json A) (enc : String)
      → new_sd_disclosure E salt name value ≡ good enc
      → IsDisclosure (name, value) enc
  unfolding new_sd_disclosure decode_disclosure
  new_sd_disclosure-IsDisclosure none name value enc e = ground arith
  new_sd_disclosure-IsDisclosure (some salt) name value enc e =
      let l = text (E.base64 salt) ∷ text name ∷ value ∷ [] in
      let (b, given, result) =
        bind-good (given_or "json" (E.marshal l)) (λ b. good (E.base64 b)) enc e in
      let marshalled = given_or-good "json" (E.marshal l) b given in
      let encoded : E.base64 b ≡ enc = ground arith in
      let decoded : decode_disclosure E (E.base64 b) ≡ good (name, value) =
        rw (unbase64-base64 b, unmarshal-marshal l b marshalled) refl in
      rw (sym encoded) ((base64-tilde b, base64-stop b, base64-marshal l b marshalled), decoded)

  pub disclosures-Disclose :
      (salts : ℕ → Option Bytes) (i : ℕ) (specs : List (String × Json A)) (encs : List String)
      → disclosures E salts i specs ≡ good encs
      → Disclose specs encs
  disclosures-Disclose salts i specs encs e =
      disclosures-Pairwise E IsDisclosure new_sd_disclosure-IsDisclosure salts i specs encs e

  pub Disclose-parts :
      (specs : List (String × Json A)) (encs : List String) → Disclose specs encs → All IsPart encs
  Disclose-parts [] [] d = tt
  Disclose-parts [] (enc ∷ encs) d = elim d [ ]
  Disclose-parts (spec ∷ specs) [] d = elim d [ ]
  Disclose-parts (spec ∷ specs) (enc ∷ encs) (d, ds) = (d.0, Disclose-parts specs encs ds)

  IsSigned-later :
      (h : String) (sd encs : List String)
      → All (IsSigned E sd) encs
      → All (IsSigned E (h ∷ sd)) encs
  IsSigned-later h sd [] signed = tt
  IsSigned-later h sd (enc ∷ encs) (s, ss) = (ground arith, IsSigned-later h sd encs ss)

  pub hashes-IsSigned : (encs : List String) → All (IsSigned E (hashes E encs)) encs
  hashes-IsSigned [] = tt
  hashes-IsSigned (enc ∷ encs) = (
    rw (eq_refl (hash_of E enc)) refl,
    IsSigned-later (hash_of E enc) (hashes E encs) encs (hashes-IsSigned encs),
  )

  -- The verifier takes what was disclosed, if its hashes are signed.
  pub verify_disclosures-Disclose :
      (sd : List String) (disclosed specs : List (String × Json A)) (encs : List String)
      → Disclose specs encs
      → All (IsSigned E sd) encs
      → verify_disclosures E sd disclosed encs ≡ good (filled disclosed specs)
  unfolding verify_disclosures
  verify_disclosures-Disclose sd disclosed [] [] d signed = refl
  verify_disclosures-Disclose sd disclosed [] (enc ∷ encs) d signed = elim d [ ]
  verify_disclosures-Disclose sd disclosed (spec ∷ specs) [] d signed = elim d [ ]
  verify_disclosures-Disclose sd disclosed (spec ∷ specs) (enc ∷ encs) (d, ds) (h, hs) =
      let rest = verify_disclosures-Disclose sd (spec ∷ disclosed) specs encs ds hs in
      rw (h, d.1) rest

  module _ ⦃F : Amount A⦄ {K P : Type 0} (J : Jwt K P) (jwt_laws : JwtLaws J) where
    open jwt_laws use {parse-sign, sign-tilde, sign-nonempty}

    -- A token whose issuer's token parses to unexpired claims of the right type, presented with
    -- disclosures that they sign and a key-binding token that is valid or none, is accepted.
    pub verify-presentation :
        (issuer_jwt : String) (claims : IssuerJwtClaims) (specs : List (String × Json A))
        (encs : List String) (kb : String) (key : P) (nonce uri : String) (t1 t2 t3 t4 : Time)
        → has_sign tilde issuer_jwt ≡ false
        → (issuer_jwt == "") ≡ false
        → IsKbJwt kb
        → J.parse_with_claims issuer_jwt (issuer_key key) t1 ≡ good claims
        → claims.vct ≡ "DepositPledgeAttestation"
        → is_expired claims.registered.expires_at t2 ≡ false
        → Disclose specs encs
        → All (IsSigned E claims.sd) encs
        → verify_kb_jwt E J kb issuer_jwt encs nonce uri t3 ≡ good tt
        → verify_vp_token E J (presentation issuer_jwt encs kb) key nonce uri (t1, t2, t3, t4)
          ≡ good (verified E claims (filled [] specs) t4)
    unfolding verify_vp_token verify_split verify_parts
    verify-presentation issuer_jwt claims specs encs kb key nonce uri t1 t2 t3 t4 whole filled_in
          bound parsed vct unexpired d signed kb_good =
        let parts = Disclose-parts specs encs d in
        let times : Time × Time × Time × Time = (t1, t2, t3, t4) in
        let checked : verify_parts E J issuer_jwt encs kb key nonce uri times
            ≡ good (verified E claims (filled [] specs) t4) =
          rw
            (
              parsed,
              vct,
              unexpired,
              verify_disclosures-Disclose claims.sd [] specs encs d signed,
              kb_good,
            )
            refl in
        let sorted : verify_split E J (issuer_jwt ∷ followed encs kb) key nonce uri times
            ≡ verify_parts E J issuer_jwt encs kb key nonce uri times =
          rw
            (
              filled_in,
              disclosures_in-shown encs kb parts bound,
              kb_jwt_in-shown encs kb parts bound,
            )
            refl in
        ap (λ l. verify_split E J l key nonce uri times)
          (split-presentation issuer_jwt encs kb whole parts bound.0)
        ∙ sorted
        ∙ checked
