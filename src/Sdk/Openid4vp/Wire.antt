-- ===== src/Sdk/Openid4vp/Wire.antt =====
-- What the issuer of server/internal/issuance/credential.go writes, as the SDK of
-- sdk-examples/go/openid4vp/service.go reads it: the laws of the formats, and the reading of the
-- disclosures.
use Prim.Native.String.{◌++◌}
use mathlib.Core.Path.{subst}
use xmiete.Prelude.{
  String, false, Option, none, some, List, [], ◌∷◌, ◌==◌, arith, ◌≡◌, refl, sym, ap, inl, inr, All,
  Pairwise, filled, lookup, eq_iff, Bool-cases,
}
use xmiete.Prelude.Int.{ℤ, pos}
use xmiete.Prelude.Results.{good, given_or, bind-good, given_or-good}
use xmiete.Prelude.Split.{has_sign, stop, split_n-stop}
use xmiete.Calendar.{Time, unix}
use xmiete.Crypto.{
  Bytes, Json, number, text, other, Encoding, EncodingLaws, Jwt, Header, SdJwtClaims,
}
use xmiete.Issuance.Credential.{new_sd_disclosure}
use xmiete.Verification.Parts.{IsPart, IsSigned, followed}
use xmiete.Sdk.Openid4vp.Models.{IssuerClaims}
use xmiete.Sdk.Openid4vp.Token.{
  Decoder, last_part, without_last, non_empty, disclosure_encodings, verify_issuer_jwt,
  decode_disclosure, verify_disclosures, text_or_nil, opt_float,
}

abbrev pub exp_of : Option Time → ℤ
exp_of none = pos 0
exp_of (some t) = unix t

-- The claims under the names that the SDK reads.
abbrev pub payload_of : SdJwtClaims → IssuerClaims
payload_of c = record {
  credential_id = c.registered.id;
  deposit_id = c.deposit_id;
  pledge_date = c.pledge_date;
  statutory_basis = c.statutory_basis;
  issuing_bank = c.issuing_bank;
  sd_hashes = c.sd;
  exp = exp_of c.registered.expires_at;
}

-- The bytes of an element read as the element.
abbrev pub Stands : {A : Type 0} → Decoder A → Json A → Bytes → Type 0
Stands D (number a) raw = D.float_of raw ≡ some a
Stands D (text s) raw = D.string_of raw ≡ good s
Stands D other raw = Unit

-- The documented behaviour of encoding/json and of a signed token: an array that was written reads
-- as its elements, and a token is a header, the claims and a signature, with full stops between.
pub record WireLaws {A K P : Type 0} (E : Encoding A) (J : Jwt K P) (D : Decoder A) : Type 0 where
  pub raw_array-marshal :
      (l : List (Json A)) (b : Bytes)
      → E.marshal l ≡ some b
      → (raws : List Bytes) × (D.raw_array b ≡ some raws) × Pairwise (Stands D) l raws
  pub compact :
      (key : K) (header : Header) (claims : SdJwtClaims) (s : String)
      → J.sign key header claims ≡ good s
      → (head : String) × (payload : Bytes) × (signature : String) × (s
          ≡ head ++ ("." ++ (E.base64 payload ++ ("." ++ signature))))
        × (has_sign stop head ≡ false)
        × (D.issuer_payload payload ≡ good (payload_of claims))

-- The parts of what a wallet presents.
last_part-followed : (encs : List String) (kb : String) → last_part (followed encs kb) ≡ kb
last_part-followed [] kb = refl
last_part-followed (e ∷ []) kb = refl
last_part-followed (e ∷ f ∷ es) kb = last_part-followed (f ∷ es) kb

without_last-followed : (encs : List String) (kb : String) → without_last (followed encs kb) ≡ encs
without_last-followed [] kb = refl
without_last-followed (e ∷ []) kb = refl
without_last-followed (e ∷ f ∷ es) kb = ap (λ l. e ∷ l) (without_last-followed (f ∷ es) kb)

non_empty-parts : (encs : List String) → All IsPart encs → non_empty encs ≡ encs
non_empty-parts [] parts = refl
non_empty-parts (e ∷ es) (p, ps) = rw p.2 (ap (λ l. e ∷ l) (non_empty-parts es ps))

non_empty-followed : (encs : List String) → All IsPart encs → non_empty (followed encs "") ≡ encs
non_empty-followed [] parts = refl
non_empty-followed (e ∷ es) (p, ps) = rw p.2 (ap (λ l. e ∷ l) (non_empty-followed es ps))

pub presented_parts :
    (encs : List String) (kb : String)
    → All IsPart encs
    → (disclosure_encodings (followed encs kb) ≡ encs) × (last_part (followed encs kb) ≡ kb)
presented_parts encs kb parts =
    let last = last_part-followed encs kb in
    (
      elim (Bool-cases (kb == "")) [
        | inl empty ↦ rw (last, empty) (rw ((eq_iff kb "").0 empty) (non_empty-followed encs parts))
        | inr present ↦
            rw (last, present, without_last-followed encs kb) (non_empty-parts encs parts)
      ],
      last,
    )

module _ {A K P : Type 0} (E : Encoding A) (laws : EncodingLaws E) (J : Jwt K P) (D : Decoder A)
    (wire : WireLaws E J D) where
  open laws use {unbase64-base64, base64-marshal, base64-tilde, base64-stop}
  open wire use {raw_array-marshal, compact}

  pub verify_issuer_jwt-sign :
      (key : K) (header : Header) (claims : SdJwtClaims) (s : String)
      → J.sign key header claims ≡ good s
      → verify_issuer_jwt E D s ≡ good (payload_of claims)
  unfolding verify_issuer_jwt
  verify_issuer_jwt-sign key header claims s signed =
      let (head, payload, signature, written, free, parsed) = compact key header claims s signed in
      rw
        (
          written,
          split_n-stop 1 head (E.base64 payload ++ ("." ++ signature)) free,
          split_n-stop 0 (E.base64 payload) signature (base64-stop payload),
        )
        (rw (unbase64-base64 payload, parsed) refl)

  -- A disclosure that is read under its name, with bytes that stand for its value.
  abbrev pub IsRead : String × Json A → String → Type 0
  IsRead (name, value) enc =
      IsPart enc
      × (raw : Bytes) × (decode_disclosure E D enc ≡ good (name, raw))
      × Stands D value raw

  -- The name and the value among the elements that were read.
  decoded_raws :
      (b : Bytes) (name : String) (value : Json A) (raws : List Bytes)
      → D.raw_array b ≡ some raws
      → (salt : String) → Pairwise (Stands D) (text salt ∷ text name ∷ value ∷ []) raws
      → (raw : Bytes) × (decode_disclosure E D (E.base64 b) ≡ good (name, raw)) × Stands D value raw
  unfolding decode_disclosure
  decoded_raws b name value (r0 ∷ r1 ∷ raw ∷ []) read salt (s0, (s1, (s2, _))) =
      (raw, rw (unbase64-base64 b, read, s1) refl, s2)
  decoded_raws b name value [] read salt stand = elim stand [ ]
  decoded_raws b name value (r0 ∷ []) read salt (s0, none_left) = elim none_left [ ]
  decoded_raws b name value (r0 ∷ r1 ∷ []) read salt (s0, (s1, none_left)) = elim none_left [ ]
  decoded_raws b name value (r0 ∷ r1 ∷ r2 ∷ r3 ∷ rs) read salt (s0, (s1, (s2, none_left))) =
      elim none_left [ ]

  pub new_sd_disclosure-IsRead :
      (salt : Option Bytes) (name : String) (value : Json A) (enc : String)
      → new_sd_disclosure E salt name value ≡ good enc
      → IsRead (name, value) enc
  unfolding new_sd_disclosure
  new_sd_disclosure-IsRead none name value enc e = ground arith
  new_sd_disclosure-IsRead (some salt) name value enc e =
      let l = text (E.base64 salt) ∷ text name ∷ value ∷ [] in
      let (b, given, result) =
        bind-good (given_or "json" (E.marshal l)) (λ b. good (E.base64 b)) enc e in
      let marshalled = given_or-good "json" (E.marshal l) b given in
      let encoded : E.base64 b ≡ enc = ground arith in
      let (raws, read, stand) = raw_array-marshal l b marshalled in
      let (raw, decoded, stands) = decoded_raws b name value raws read (E.base64 salt) stand in
      rw (sym encoded)
        ((base64-tilde b, base64-stop b, base64-marshal l b marshalled), raw, decoded, stands)

  -- An entry of the map that the verifier fills, for one of the claims.
  abbrev pub Agrees : String × Json A → String × Bytes → Type 0
  Agrees (name, value) (key, raw) = (key ≡ name) × Stands D value raw

  pub verify_disclosures-Agrees :
      (sd : List String) (before : List (String × Bytes)) (specs : List (String × Json A))
      (encs : List String)
      → Pairwise IsRead specs encs
      → All (IsSigned E sd) encs
      → (entries : List (String × Bytes)) × Pairwise Agrees specs entries
        × (verify_disclosures E D sd before encs ≡ good (filled before entries))
  unfolding verify_disclosures
  verify_disclosures-Agrees sd before [] [] d signed = ([], tt, refl)
  verify_disclosures-Agrees sd before [] (enc ∷ encs) d signed = elim d [ ]
  verify_disclosures-Agrees sd before (spec ∷ specs) [] d signed = elim d [ ]
  verify_disclosures-Agrees sd before ((name, value) ∷ specs) (enc ∷ encs) ((p, raw, q, r), ds)
        (h, hs) =
      let (entries, agree, rest) =
        verify_disclosures-Agrees sd ((name, raw) ∷ before) specs encs ds hs in
      ((name, raw) ∷ entries, ((refl, r), agree), rw (h, q) rest)

  filled-Agrees :
      (b : List (String × Json A)) (b' : List (String × Bytes)) (specs : List (String × Json A))
      (entries : List (String × Bytes))
      → Pairwise Agrees b b'
      → Pairwise Agrees specs entries
      → Pairwise Agrees (filled b specs) (filled b' entries)
  filled-Agrees b b' [] [] before rest = before
  filled-Agrees b b' [] (f ∷ fs) before rest = elim rest [ ]
  filled-Agrees b b' (s ∷ ss) [] before rest = elim rest [ ]
  filled-Agrees b b' (s ∷ ss) (f ∷ fs) before (r, rs) =
      filled-Agrees (s ∷ b) (f ∷ b') ss fs (r, before) rs

  -- What is found under a key.
  abbrev pub FoundAs : Option (Json A) → Option Bytes → Type 0
  FoundAs none none = Unit
  FoundAs (some value) (some raw) = Stands D value raw
  FoundAs _ _ = ⊥

  lookup-FoundAs :
      (k : String) (specs : List (String × Json A)) (entries : List (String × Bytes))
      → Pairwise Agrees specs entries
      → FoundAs (lookup k specs) (lookup k entries)
  unfolding lookup
  lookup-FoundAs k [] [] agree = tt
  lookup-FoundAs k [] (f ∷ fs) agree = elim agree [ ]
  lookup-FoundAs k (s ∷ ss) [] agree = elim agree [ ]
  lookup-FoundAs k ((name, value) ∷ ss) ((key, raw) ∷ fs) ((e, r), rs) =
      elim (Bool-cases (name == k)) [
        | inl here ↦ rw (e, here) r
        | inr later ↦ rw (e, later) (lookup-FoundAs k ss fs rs)
      ]

  text_FoundAs :
      (s : String) (o : Option Bytes) → FoundAs (some (text s)) o → text_or_nil E D o ≡ some s
  text_FoundAs s none f = elim f [ ]
  text_FoundAs s (some raw) f = rw f refl

  float_FoundAs :
      (a : A) (o : Option Bytes) → FoundAs (some (number a)) o → opt_float E D o ≡ some a
  float_FoundAs a none f = elim f [ ]
  float_FoundAs a (some raw) f = f

  -- What a text or an amount under a key reads as, in the map after the loop.
  module _ (k : String) (specs : List (String × Json A)) (entries : List (String × Bytes))
      (agree : Pairwise Agrees specs entries) where
    found : FoundAs (lookup k (filled [] specs)) (lookup k (filled [] entries))
    found =
        lookup-FoundAs k (filled [] specs) (filled [] entries)
          (filled-Agrees [] [] specs entries tt agree)

    pub text_found :
        (s : String)
        → lookup k (filled [] specs) ≡ some (text s)
        → text_or_nil E D (lookup k (filled [] entries)) ≡ some s
    text_found s e =
        text_FoundAs s (lookup k (filled [] entries))
          (subst (λ o. FoundAs o (lookup k (filled [] entries))) e found)

    pub float_found :
        (a : A)
        → lookup k (filled [] specs) ≡ some (number a)
        → opt_float E D (lookup k (filled [] entries)) ≡ some a
    float_found a e =
        float_FoundAs a (lookup k (filled [] entries))
          (subst (λ o. FoundAs o (lookup k (filled [] entries))) e found)
