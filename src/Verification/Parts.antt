-- ===== src/Verification/Parts.antt =====
-- The parts of a presented token (server/internal/verification/vp.go): the issuer's token, the
-- disclosures that the holder shows, and perhaps a key-binding token.
use Prim.Native.String.{◌++◌}
use Prim.Native.String.append
use text.Mathlib.TextLemmas.{append_assoc}
use xmiete.Prelude.{
  String, true, false, List, [], ◌∷◌, ◌==◌, arith, ◌≡◌, refl, ap, ◌∙◌, any, All, ◌⊎◌, inl, inr,
  if◌then◌else◌,
}
use xmiete.Prelude.Split.{has_sign, split, join, tilde, split-tilde, split_whole}
use xmiete.Crypto.{Encoding}
use xmiete.Issuance.Credential.{hash_of}
use xmiete.Verification.Token.{disclosures_in, kb_jwt_in, with_tildes}

-- The signs of a disclosure: base64url, and not empty.
abbrev pub IsPart : String → Type 0
IsPart e = (has_sign tilde e ≡ false) × (has_sign b'.' e ≡ false) × ((e == "") ≡ false)

-- The hash of a disclosure is among those signed.
abbrev pub IsSigned : {A : Type 0} → Encoding A → List String → String → Type 0
IsSigned E sd enc = any (λ h. h == hash_of E enc) sd ≡ true

-- A token as a wallet presents it.
abbrev pub presentation : String → List String → String → String
presentation issuer_jwt shown kb_jwt = issuer_jwt ++ ("~" ++ (with_tildes shown ++ kb_jwt))

-- What the issuer's token is followed by.
abbrev pub followed : List String → String → List String
followed [] kb = kb ∷ []
followed (e ∷ es) kb = e ∷ followed es kb

split-with_tildes :
    (shown : List String) (kb : String)
    → All IsPart shown
    → has_sign tilde kb ≡ false
    → split tilde (with_tildes shown ++ kb) ≡ followed shown kb
split-with_tildes [] kb parts free = rw (append.nil kb) (split_whole kb free)
split-with_tildes (e ∷ es) kb (p, ps) free =
    rw (append_assoc e ("~" ++ with_tildes es) kb, append_assoc "~" (with_tildes es) kb)
      (split-tilde e (with_tildes es ++ kb) p.0 ∙ ap (λ l. e ∷ l) (split-with_tildes es kb ps free))

pub split-presentation :
    (issuer_jwt : String) (shown : List String) (kb : String)
    → has_sign tilde issuer_jwt ≡ false
    → All IsPart shown
    → has_sign tilde kb ≡ false
    → split tilde (presentation issuer_jwt shown kb) ≡ issuer_jwt ∷ (followed shown kb)
split-presentation issuer_jwt shown kb whole parts free =
    split-tilde issuer_jwt (with_tildes shown ++ kb) whole
    ∙ ap (λ l. issuer_jwt ∷ l) (split-with_tildes shown kb parts free)

-- A key-binding token has a full stop; none is the empty text.
abbrev pub IsKbJwt : String → Type 0
IsKbJwt kb =
    (has_sign tilde kb ≡ false) × ((kb ≡ "") ⊎ ((has_sign b'.' kb ≡ true) × ((kb == "") ≡ false)))

pub disclosures_in-shown :
    (shown : List String) (kb : String)
    → All IsPart shown
    → IsKbJwt kb
    → disclosures_in (followed shown kb) ≡ shown
unfolding disclosures_in
disclosures_in-shown [] kb parts (_, inl e) = rw e refl
disclosures_in-shown [] kb parts (_, inr e) = ground arith
disclosures_in-shown (e ∷ es) kb (p, ps) k =
    let rest = disclosures_in-shown es kb ps k in rw (p.2, p.1) (ap (λ l. e ∷ l) rest)

pub kb_jwt_in-shown :
    (shown : List String) (kb : String)
    → All IsPart shown
    → IsKbJwt kb
    → kb_jwt_in "" (followed shown kb) ≡ kb
unfolding kb_jwt_in
kb_jwt_in-shown [] kb parts (_, inl e) = rw e refl
kb_jwt_in-shown [] kb parts (_, inr e) = ground arith
kb_jwt_in-shown (e ∷ es) kb (p, ps) k =
    let rest = kb_jwt_in-shown es kb ps k in
    let skipped : (if e == "" then "" else if has_sign b'.' e then e else "") ≡ "" =
      rw (p.2, p.1) refl in
    ap (λ t. kb_jwt_in t (followed es kb)) skipped ∙ rest

-- The texts joined by tildes, and a tilde at the end.
pub join-tildes : (e : String) (es : List String) → join "~" (e ∷ es) ++ "~" ≡ with_tildes (e ∷ es)
join-tildes e [] = refl
join-tildes e (f ∷ es) =
    append_assoc e ("~" ++ join "~" (f ∷ es)) "~"
    ∙ ap (λ t. e ++ t) (append_assoc "~" (join "~" (f ∷ es)) "~")
    ∙ ap (λ t. e ++ ("~" ++ t)) (join-tildes f es)
