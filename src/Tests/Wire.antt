-- ===== src/Tests/Wire.antt =====
-- A decoder that keeps the laws of the SDK's formats: the bytes of an element are its array's place
-- in a table, and its own place in that array.
use xmiete.Prelude.{
  ℕ, zero, suc, ◌+◌, String, false, Option, none, some, List, [], ◌∷◌, arith, ◌≡◌, refl, sym, ap,
  ◌∙◌, Pairwise,
}
use xmiete.Prelude.Results.{Result, good, bad}
use xmiete.Crypto.{Bytes, Json, number, text, other, SdJwtClaims, KbJwtClaims}
use xmiete.Sdk.Openid4vp.Models.{IssuerClaims}
use xmiete.Sdk.Openid4vp.Token.{KbPayload, Decoder}
use xmiete.Sdk.Openid4vp.Wire.{payload_of, Stands, WireLaws}
use xmiete.Tests.Crypto.{Table, at, place, at-place, position, encoding}
use xmiete.Tests.Signatures.{compact_jwt, signed_document}

elem : List (Json ℕ) → ℕ → Option (Json ℕ)
elem [] k = none
elem (x ∷ xs) zero = some x
elem (x ∷ xs) (suc k) = elem xs k

elem_of : Option (List (Json ℕ)) → ℕ → Option (Json ℕ)
unfolding elem
elem_of none k = none
elem_of (some l) k = elem l k

as_text : Option (Json ℕ) → Result String
as_text (some (text s)) = good s
as_text _ = bad "not a string"

as_number : Option (Json ℕ) → Option ℕ
as_number (some (number n)) = some n
as_number _ = none

element : Table → Bytes → Option (Json ℕ)
unfolding elem_of at
element table (n ∷ k ∷ _) = elem_of (at table n) k
element table _ = none

raws : ℕ → ℕ → List (Json ℕ) → List Bytes
raws n k [] = []
raws n k (_ ∷ l) = (n ∷ k ∷ []) ∷ raws n (suc k) l

array_at : ℕ → Option (List (Json ℕ)) → Option (List Bytes)
unfolding raws
array_at n none = none
array_at n (some l) = some (raws n zero l)

raw_arrays : Table → Bytes → Option (List Bytes)
unfolding at array_at
raw_arrays table [] = none
raw_arrays table (n ∷ _) = array_at n (at table n)

size : List (Json ℕ) → ℕ
size [] = zero
size (_ ∷ l) = suc (size l)

issuer_of : SdJwtClaims → Bytes → Result IssuerClaims
issuer_of document [] = good (payload_of document)
issuer_of document (_ ∷ _) = bad "unexpected end of JSON input"

module _ (table : Table) (document : SdJwtClaims) (payload : KbPayload) where
  unfoldable pub decoder : Decoder ℕ
  unfolding as_text as_number element raw_arrays issuer_of
  decoder = record {
    issuer_payload = issuer_of document;
    kb_payload = λ b. good payload;
    kb_header = λ b. (false, "kb+jwt");
    raw_array = raw_arrays table;
    string_of = λ raw. as_text (element table raw);
    float_of = λ raw. as_number (element table raw);
  }

  reads :
      (n k : ℕ) (x : Json ℕ) → element table (n ∷ k ∷ []) ≡ some x → Stands decoder x (n ∷ k ∷ [])
  unfolding decoder as_text as_number
  reads n k (number m) e = rw e refl
  reads n k (text s) e = rw e refl
  reads n k other e = tt

  -- The elements from a place on.
  stand :
      (n k : ℕ) (l rest : List (Json ℕ))
      → at table n ≡ some l
      → ((j : ℕ) → elem l (k + j) ≡ elem rest j)
      → Pairwise (Stands decoder) rest (raws n k rest)
  unfolding element elem_of raws
  stand n k l [] found same = tt
  stand n k l (x ∷ rest) found same =
      let here : elem l k ≡ some x = ap (elem l) (omega arith) ∙ same zero in
      (
        reads n k x (rw found here),
        stand n (suc k) l rest found (λ j. ap (elem l) (omega arith) ∙ same (suc j)),
      )

  positioned :
      (o : Option ℕ) (b : Bytes) → position o ≡ some b → (n : ℕ) × (o ≡ some n) × (b ≡ n ∷ [])
  unfolding position
  positioned none b e = ground arith
  positioned (some n) b e = (n, refl, ground arith)

  pub wire_laws : (kb : KbJwtClaims) → WireLaws (encoding table) (compact_jwt document kb) decoder
  unfolding decoder encoding raw_arrays array_at
  wire_laws kb = record {
    raw_array-marshal = λ l b e.
        let (n, found, is) = positioned (place table l) b e in
        let held = at-place table l n found in
        (raws n zero l, rw (is, held) refl, stand n zero l l held (λ j. ap (elem l) (omega arith)));
    compact = λ key header claims s signed.
        let (same, token) = signed_document document kb key header claims s signed in
        ("h", [], "s", token, refl, ap (λ c. good (payload_of c)) (sym same));
  }
