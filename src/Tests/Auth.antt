-- ===== src/Tests/Auth.antt =====
-- A cache of keys that is filled from the server's own key set.
use xmiete.Prelude.{String, ◌*◌, ◌≡◌, refl, arith, none, some, [], ◌∷◌}
use xmiete.Prelude.Results.{Result, good}
use xmiete.Calendar.{minute}
use xmiete.Issuance.Metadata.{Coordinate, jwk}
use xmiete.Auth.{
  Cache, PublicKey, Fetch, ecdsa, p256, key_set, public_key, key_func, jwks_middleware,
  extract_bearer,
}
use xmiete.Auth.Passes.{PassedBy, jwks_middleware-PassedBy}
use xmiete.Auth.Keys.{Taken, key_func-Taken, read_jwk, public_key-jwk}
use xmiete.Tests.Crypto.{encoding, encoding_laws}

abbrev x_of : Coordinate
x_of = record { big_endian = 1 ∷ []; fits = omega arith }

abbrev y_of : Coordinate
y_of = record { big_endian = 2 ∷ 0 ∷ []; fits = omega arith }

public_key-jwk_example :
    public_key (encoding []).unbase64 (read_jwk (jwk (encoding []).base64 "k" (x_of, y_of)))
    ≡ good (ecdsa p256 1 512)
public_key-jwk_example = public_key-jwk (encoding []) (encoding_laws []) "k" x_of y_of

abbrev empty : Cache
empty = record { keys = none; fetched_at = 0 }

abbrev filled : Cache
filled = record { keys = some (("k", ecdsa p256 1 512) ∷ []); fetched_at = 8 * minute }

fetched :
    key_func
      (encoding [])
      "k"
      (7 * minute)
      (key_set (read_jwk (jwk (encoding []).base64 "k" (x_of, y_of)) ∷ []))
      (8 * minute)
      empty
    ≡ (good (ecdsa p256 1 512), filled)
unfolding key_func encoding jwk
fetched = refl

key_func-Taken_example :
    Taken
      (encoding [])
      "k"
      (key_set (read_jwk (jwk (encoding []).base64 "k" (x_of, y_of)) ∷ []))
      (7 * minute)
      (8 * minute)
      empty
      (ecdsa p256 1 512)
      filled
key_func-Taken_example =
    key_func-Taken (encoding []) "k" (7 * minute)
      (key_set (read_jwk (jwk (encoding []).base64 "k" (x_of, y_of)) ∷ [])) (8 * minute) empty
      (ecdsa p256 1 512) filled fetched

abbrev kid_in : String → Result String
kid_in token = good "k"

abbrev check : String → PublicKey → Result String
check token key = good token

abbrev key_sets : Fetch
key_sets = key_set (read_jwk (jwk (encoding []).base64 "k" (x_of, y_of)) ∷ [])

passed :
    jwks_middleware (encoding []) kid_in check "Bearer t" (7 * minute) key_sets (8 * minute) empty
    ≡ (good "t", filled)
unfolding jwks_middleware encoding jwk
passed = refl

jwks_middleware-PassedBy_example :
    (token : String) × (extract_bearer "Bearer t" ≡ some token)
    × PassedBy (encoding []) kid_in check (7 * minute) key_sets (8 * minute) empty "t" filled token
jwks_middleware-PassedBy_example =
    jwks_middleware-PassedBy (encoding []) kid_in check (7 * minute) key_sets (8 * minute) empty "t"
      filled "Bearer t" passed
