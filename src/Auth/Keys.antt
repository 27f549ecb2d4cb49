-- ===== src/Auth/Keys.antt =====
-- The keys that server/internal/api/middleware/auth.go accepts tokens by.
use xmiete.Prelude.{
  String, true, Option, none, some, ◌≡◌, refl, sym, ap, ◌∙◌, ◌⊎◌, inl, inr, arith, Option-cases,
  Bool-cases, if◌then◌else◌,
}
use xmiete.Prelude.Results.{Result, good, bad, good_injective}
use xmiete.Calendar.{Time}
use xmiete.Crypto.{Encoding, EncodingLaws}
use xmiete.Issuance.Metadata.{Jwk, jwk, Coordinate, padded, value, padded-value}
use xmiete.Auth.{
  JwkKey, PublicKey, ecdsa, p256, public_key, Fetch, Cache, key_of, is_fresh, refresh, found_or,
  after_refresh, cached, key_or_refresh, key_func,
}

nothing : (key : PublicKey) → Path (Option PublicKey) none (some key) → ⊥
nothing key e = ground arith

module _ {A : Type 0} (E : Encoding A) where
  -- The cache that a key was taken from is one of the last five minutes, or one just fetched.
  abbrev pub Recent : Fetch → Time → Time → Cache → Cache → Type 0
  Recent answer now later before after =
      ((after ≡ before) × (is_fresh before now ≡ true)) ⊎ (refresh E answer later ≡ good after)

  found_or-good :
      (kid : String) (o : Option PublicKey) (key : PublicKey)
      → found_or E kid o ≡ good key
      → o ≡ some key
  found_or-good kid none key e = ground arith
  found_or-good kid (some k) key e = ground arith

  abbrev pub Taken : String → Fetch → Time → Time → Cache → PublicKey → Cache → Type 0
  Taken kid answer now later before key after =
      (key_of kid after.keys ≡ some key) × Recent answer now later before after

  after_refresh-Taken :
      (kid : String) (answer : Fetch) (now later : Time) (before : Cache) (r : Result Cache)
      → refresh E answer later ≡ r
      → (key : PublicKey) (after : Cache) → after_refresh E kid before r ≡ (good key, after)
      → Taken kid answer now later before key after
  after_refresh-Taken kid answer now later before (bad m) fetched key after e = ground arith
  after_refresh-Taken kid answer now later before (good c) fetched key after e =
      let found =
        found_or-good kid (key_of kid c.keys) key (ap (λ (x : Result PublicKey × Cache). x.0) e) in
      let same = ap (λ (x : Result PublicKey × Cache). x.1) e in rw (sym same) (found, inr fetched)

  cached-fresh :
      (kid : String) (c : Cache) (now : Time) (key : PublicKey)
      → cached E kid c now ≡ some key
      → (is_fresh c now ≡ true) × (key_of kid c.keys ≡ some key)
  cached-fresh kid c now key e = elim (Bool-cases (is_fresh c now)) [
    | inl fresh ↦ (fresh, ap (λ b. if b then key_of kid c.keys else none) (sym fresh) ∙ e)
    | inr stale ↦
        absurd (nothing key (ap (λ b. if b then key_of kid c.keys else none) (sym stale) ∙ e))
  ]

  -- A key that `keyFunc` answers has the identifier asked for in the cache that is left; and that
  -- cache is the one before, filled less than five minutes ago, or one that was fetched just now.
  pub key_func-Taken :
      (kid : String) (now : Time) (answer : Fetch) (later : Time) (before : Cache) (key : PublicKey)
      (after : Cache)
      → key_func E kid now answer later before ≡ (good key, after)
      → Taken kid answer now later before key after
  unfolding key_func
  key_func-Taken kid now answer later before key after e =
      elim (Option-cases (cached E kid before now)) [
        | inl absent ↦
            after_refresh-Taken kid answer now later before (refresh E answer later) refl key after
              (ap (key_or_refresh E kid answer later before) (sym absent) ∙ e)
        | inr (k, present) ↦
            let (fresh, found) = cached-fresh kid before now k present in
            let taken : Path (Result PublicKey × Cache) (good k, before) (good key, after) =
              ap (key_or_refresh E kid answer later before) (sym present) ∙ e in
            let is_key = good_injective k key (ap (λ (x : Result PublicKey × Cache). x.0) taken) in
            let same = ap (λ (x : Result PublicKey × Cache). x.1) taken in
            rw (sym same, sym is_key) (found, inl (refl, fresh))
      ]

-- A published key as its JSON is read: the fields of the same names.
abbrev pub read_jwk : Jwk → JwkKey
read_jwk k = record {
  kty = k.kty;
  kid = k.kid;
  alg = k.alg;
  n = "";
  e = "";
  crv = k.crv;
  x = k.x;
  y = k.y;
}

-- The key that the issuer publishes is read as the point of P-256 with the same coordinates, if
-- base64url decodes what it encoded.
pub public_key-jwk :
    {A : Type 0} (E : Encoding A) (laws : EncodingLaws E) (kid : String) (x y : Coordinate)
    → public_key E.unbase64 (read_jwk (jwk E.base64 kid (x, y)))
      ≡ good (ecdsa p256 (value 0 x.big_endian) (value 0 y.big_endian))
unfolding public_key jwk
public_key-jwk E laws kid x y =
    rw
      (
        laws.unbase64-base64 (padded x),
        laws.unbase64-base64 (padded y),
        (padded-value x).1,
        (padded-value y).1,
      )
      refl
