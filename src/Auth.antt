-- ===== src/Auth.antt =====
-- Authentication: server/internal/api/middleware/auth.go. The cache of public keys is used by one
-- request at a time. The answer of the key server and the parsing of a token are given.
pub mod Keys
pub mod Passes
use Prim.Native.String.{◌++◌}
use xmiete.Prelude.{
  ℕ, ◌+◌, ◌-◌, ◌*◌, ◌%◌, ◌^◌, ltb, String, Bool, false, true, ◌&&◌, Option, none, some, List, [],
  ◌∷◌, ◌==◌, lookup, put, if◌then◌else◌,
}
use xmiete.Prelude.Int.{ℤ, pos, negsuc, int_text}
use xmiete.Prelude.Results.{Result, good, bad, ◌>>=◌, within}
use xmiete.Prelude.Split.{after_prefix}
use xmiete.Calendar.{Time, minute}
use xmiete.Crypto.{Bytes, Encoding}
use xmiete.Issuance.Metadata.{value}

pub record JwkKey : Type 0 where
  pub kty : String
  pub kid : String
  pub alg : String
  pub n : String
  pub e : String
  pub crv : String
  pub x : String
  pub y : String

pub data Curve : Type 0 where
  p256 p384 p521 : Curve

pub data PublicKey : Type 0 where
  -- the modulus and the exponent
  rsa : ℕ → ℤ → PublicKey
  ecdsa : Curve → ℕ → ℕ → PublicKey

-- big.Int's Int64 of a number that is not negative: its low 64 bits, signed.
abbrev pub int64 : ℕ → ℤ
int64 n = let low = n % 2 ^ 64 in if ltb low (2 ^ 63) then pos low else negsuc (2 ^ 64 - 1 - low)

abbrev pub curve_of : String → Result Curve
curve_of crv =
    if crv == "P-256"
    then good p256
    else if crv == "P-384"
    then good p384
    else if crv == "P-521"
    then good p521
    else bad ("jwks: unsupported curve " ++ crv)

-- An error with a text of its own.
abbrev pub or_text : {R : Type 0} → String → Result R → Result R
or_text message (good r) = good r
or_text message (bad e) = bad message

module _ (unbase64 : String → Result Bytes) where
  unfoldable pub rsa_public_key : JwkKey → Result PublicKey
  rsa_public_key k = do
    n ← or_text "jwks: invalid RSA n" (unbase64 k.n)
    e ← or_text "jwks: invalid RSA e" (unbase64 k.e)
    good (rsa (value 0 n) (int64 (value 0 e)))

  unfoldable pub ec_public_key : JwkKey → Result PublicKey
  ec_public_key k = do
    x ← or_text "jwks: invalid EC x" (unbase64 k.x)
    y ← or_text "jwks: invalid EC y" (unbase64 k.y)
    curve ← curve_of k.crv
    good (ecdsa curve (value 0 x) (value 0 y))

  unfoldable pub public_key : JwkKey → Result PublicKey
  unfolding rsa_public_key ec_public_key
  public_key k =
      if k.kty == "RSA"
      then rsa_public_key k
      else if k.kty == "EC"
      then ec_public_key k
      else bad ("unsupported kty: " ++ k.kty)

  -- The loop over the keys, which skips those of unsupported types.
  unfoldable pub add_keys : List JwkKey → List (String × PublicKey) → List (String × PublicKey)
  unfolding public_key put
  add_keys [] keys = keys
  add_keys (k ∷ ks) keys =
      add_keys ks (elim (public_key k) [ bad _ ↦ keys | good key ↦ put k.kid key keys ])

-- What http.Get and the decoding of its body come to.
pub data Fetch : Type 0 where
  unreachable : String → Fetch
  status : ℕ → Fetch
  undecoded : String → Fetch
  key_set : List JwkKey → Fetch

-- `none` is a nil map, and the time 0 that of a cache that was never filled.
pub record Cache : Type 0 where
  pub keys : Option (List (String × PublicKey))
  pub fetched_at : Time

abbrev pub key_of : String → Option (List (String × PublicKey)) → Option PublicKey
key_of kid none = none
key_of kid (some keys) = lookup kid keys

abbrev is_filled : {R : Type 0} → Option R → Bool
is_filled none = false
is_filled (some _) = true

-- time.Since(c.fetchedAt) < 5*time.Minute && c.keys != nil
abbrev pub is_fresh : Cache → Time → Bool
is_fresh c now = ltb now (c.fetched_at + 5 * minute) && is_filled c.keys

module _ {A : Type 0} (E : Encoding A) where
  -- `now` is read after the answer was decoded.
  unfoldable pub refresh : Fetch → Time → Result Cache
  unfolding add_keys
  refresh (unreachable e) now = bad e
  refresh (status code) now = bad ("JWKS endpoint returned HTTP " ++ int_text (pos code))
  refresh (undecoded e) now = bad ("decode JWKS: " ++ e)
  refresh (key_set ks) now =
      good (record { keys = some (add_keys E.unbase64 ks []); fetched_at = now })

  abbrev pub found_or : String → Option PublicKey → Result PublicKey
  found_or kid none = bad ("jwks: no key found for kid " ++ E.quote kid)
  found_or kid (some key) = good key

  -- The key from a cache that was refreshed, and that cache.
  abbrev pub after_refresh : String → Cache → Result Cache → Result PublicKey × Cache
  after_refresh kid c (bad e) = (bad ("jwks: refresh failed: " ++ e), c)
  after_refresh kid c (good c') = (found_or kid (key_of kid c'.keys), c')

  abbrev pub cached : String → Cache → Time → Option PublicKey
  cached kid c now = if is_fresh c now then key_of kid c.keys else none

  -- The cached key, or one from a refreshed cache. `answer` is what a refresh gets, and `later` the
  -- time that it reads.
  abbrev pub key_or_refresh :
      String → Fetch → Time → Cache → Option PublicKey → Result PublicKey × Cache
  key_or_refresh kid answer later c (some key) = (good key, c)
  key_or_refresh kid answer later c none = after_refresh kid c (refresh answer later)

  unfoldable pub key_func : String → Time → Fetch → Time → Cache → Result PublicKey × Cache
  unfolding lookup refresh
  key_func kid now answer later c = key_or_refresh kid answer later c (cached kid c now)

-- The token of the header Authorization.
abbrev pub extract_bearer : String → Option String
extract_bearer header = after_prefix "Bearer " header

-- The signing methods of a token: HMAC, or another by its name.
pub data Signing : Type 0 where
  hmac : Signing
  unlike : String → Signing

abbrev pub secret_for : String → Signing → Result String
secret_for secret hmac = good secret
secret_for secret (unlike _) = bad "signature is invalid"

-- The claims for the next handler, or the text of the reply 401. `parse` is jwt.Parse.
unfoldable pub jwt_middleware :
    {C : Type 0} → (String → (Signing → Result String) → Result C) → String → String → Result C
unfolding after_prefix
jwt_middleware parse secret header = elim (extract_bearer header) [
  | none ↦ bad "missing authorization header"
  | some token ↦ or_text "invalid token" (parse token (secret_for secret))
]

-- `kid_in` is the identifier in the header of a token with one of the valid methods, and `check` is
-- what jwt.Parse does with the key, for the expected issuer.
module _ {A C : Type 0} (E : Encoding A) (kid_in : String → Result String)
    (check : String → PublicKey → Result C) where
  abbrev pub checked : String → Result PublicKey × Cache → Result C × Cache
  checked token (bad e, c) = (bad "invalid token", c)
  checked token (good key, c) = (or_text "invalid token" (check token key), c)

  unfoldable pub jwks_parse :
      String → Time → Fetch → Time → Cache → Result String → Result C × Cache
  unfolding key_func
  jwks_parse token now answer later c (bad e) = (bad "invalid token", c)
  jwks_parse token now answer later c (good kid) = checked token (key_func E kid now answer later c)

  abbrev pub parse_bearer : Time → Fetch → Time → Cache → Option String → Result C × Cache
  parse_bearer now answer later c none = (bad "missing authorization header", c)
  parse_bearer now answer later c (some token) = jwks_parse token now answer later c (kid_in token)

  unfoldable pub jwks_middleware : String → Time → Fetch → Time → Cache → Result C × Cache
  unfolding after_prefix jwks_parse
  jwks_middleware header now answer later c =
      parse_bearer now answer later c (extract_bearer header)
