-- ===== src/Auth/Passes.antt =====
-- What `JWKSMiddleware` of server/internal/api/middleware/auth.go lets pass.
use xmiete.Prelude.{String, some, ◌≡◌, refl, sym, ap, ◌∙◌, arith, Option-cases, inl, inr}
use xmiete.Prelude.Results.{Result, good, bad}
use xmiete.Calendar.{Time}
use xmiete.Crypto.{Encoding}
use xmiete.Auth.{
  PublicKey, Fetch, Cache, or_text, key_func, extract_bearer, checked, jwks_parse, parse_bearer,
  jwks_middleware,
}
use xmiete.Auth.Keys.{Taken, key_func-Taken}

or_text-good :
    {R : Type 0} (message : String) (m : Result R) (r : R) → or_text message m ≡ good r → m ≡ good r
or_text-good message (good q) r e = e
or_text-good message (bad m) r e = ground arith

no_good : {R T : Type 0} (m : String) (r : R) → Path (Result R) (bad m) (good r) → T
no_good m r e = ground arith

module _ {A C : Type 0} (E : Encoding A) (kid_in : String → Result String)
    (check : String → PublicKey → Result C) (now : Time) (answer : Fetch) (later : Time)
    (before : Cache) (claims : C) (after : Cache) where
  -- A token that was checked by a recent key of its own identifier.
  abbrev pub PassedBy : String → Type 0
  PassedBy token =
      (kid : String) × (key : PublicKey) × (kid_in token ≡ good kid)
      × Taken E kid answer now later before key after
      × (check token key ≡ good claims)

  refused :
      {R : Type 0} (m : String) (c : Cache)
      → Path (Result C × Cache) (bad m, c) (good claims, after)
      → R
  refused m c e = no_good m claims (ap (λ (x : Result C × Cache). x.0) e)

  checked-good :
      (token : String) (x : Result PublicKey × Cache)
      → checked E kid_in check token x ≡ (good claims, after)
      → (key : PublicKey) × (x ≡ (good key, after)) × (check token key ≡ good claims)
  checked-good token (bad m, c) e = refused "invalid token" c e
  checked-good token (good key, c) e =
      let same = ap (λ (x : Result C × Cache). x.1) e in
      (
        key,
        ap (λ c'. (good key, c')) same,
        or_text-good "invalid token" (check token key) claims
            (ap (λ (x : Result C × Cache). x.0) e),
      )

  parsed-PassedBy :
      (token : String) (r : Result String)
      → kid_in token ≡ r
      → jwks_parse E kid_in check token now answer later before r ≡ (good claims, after)
      → PassedBy token
  unfolding jwks_parse
  parsed-PassedBy token (bad m) named e = refused "invalid token" before e
  parsed-PassedBy token (good kid) named e =
      let (key, taken, passed) = checked-good token (key_func E kid now answer later before) e in
      (kid, key, named, key_func-Taken E kid now answer later before key after taken, passed)

  -- What passes has a bearer token that was checked by a key of the token's identifier, and the key
  -- is from a cache filled less than five minutes ago or just fetched.
  pub jwks_middleware-PassedBy :
      (header : String)
      → jwks_middleware E kid_in check header now answer later before ≡ (good claims, after)
      → (token : String) × (extract_bearer header ≡ some token) × PassedBy token
  unfolding jwks_middleware
  jwks_middleware-PassedBy header e = elim (Option-cases (extract_bearer header)) [
    | inl absent ↦
        refused "missing authorization header" before
          (ap (parse_bearer E kid_in check now answer later before) (sym absent) ∙ e)
    | inr (token, given) ↦ (
      token,
      given,
      parsed-PassedBy token (kid_in token) refl
          (ap (parse_bearer E kid_in check now answer later before) (sym given) ∙ e),
    )
  ]
