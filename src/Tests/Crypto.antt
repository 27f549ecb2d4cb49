-- ===== src/Tests/Crypto.antt =====
-- Encodings that keep the laws of Crypto.antt, whose JSON has a table of arrays.
use Prim.Native.Char.{code}
use Prim.Native.String.{◌++◌}
use Prim.Native.String.append
use Prim.Native.String.compare
use xmiete.Prelude.{
  ℕ, zero, suc, eqb, String, false, Option, none, some, List, [], ◌∷◌, ◌==◌, ◌≡◌, refl, sym, ap,
  arith, if◌then◌else◌, Option-cases, inl, inr,
}
use xmiete.Prelude.Results.{Result, good, bad, ◌>>=◌}
use xmiete.Prelude.Split.{has_sign, tilde}
use xmiete.Tests.Same.{Same, same_text, same_number, same_list}
use xmiete.Crypto.{Bytes, Json, number, text, Encoding, EncodingLaws}

same_json : Same (Json ℕ)
unfolding same_text same_number
same_json (number m) (number n) = elim (same_number m n) [
  | none ↦ none
  | some p ↦ some (λ i. number (p i))
]
same_json (text s) (text t) = elim (same_text s t) [ none ↦ none | some p ↦ some (λ i. text (p i)) ]
same_json _ _ = none

mark : ℕ → String → String
mark zero s = "c" ++ s
mark (suc n) s = "a" ++ mark n s

base64 : Bytes → String
base64 [] = "e"
base64 (n ∷ ns) = mark n (base64 ns)

bump : Result Bytes → Result Bytes
bump (good (n ∷ ns)) = good (suc n ∷ ns)
bump _ = bad "illegal base64 data"

unbase64 : String → Result Bytes
unfolding bump
unbase64 String.[] = bad "illegal base64 data"
unbase64 (String.◌∷◌ c s) =
    let rest = unbase64 s in
    if eqb (code c) b'e'
    then good []
    else if eqb (code c) b'c'
    then (rest >>= λ ns. good (zero ∷ ns))
    else bump rest

unbase64-mark :
    (n : ℕ) (s : String) (ns : Bytes) → unbase64 s ≡ good ns → unbase64 (mark n s) ≡ good (n ∷ ns)
unfolding unbase64 mark bump
unbase64-mark zero s ns e = rw (append.cons _ "" s, append.nil s, e) refl
unbase64-mark (suc n) s ns e =
    rw (append.cons _ "" (mark n s), append.nil (mark n s), unbase64-mark n s ns e) refl

unbase64-base64 : (b : Bytes) → unbase64 (base64 b) ≡ good b
unfolding unbase64 base64
unbase64-base64 [] = refl
unbase64-base64 (n ∷ ns) = unbase64-mark n (base64 ns) ns (unbase64-base64 ns)

has_sign-mark :
    (sign n : ℕ) (s : String)
    → eqb b'a' sign ≡ false
    → eqb b'c' sign ≡ false
    → has_sign sign s ≡ false
    → has_sign sign (mark n s) ≡ false
unfolding mark
has_sign-mark sign zero s a c free = rw (append.cons _ "" s, append.nil s, c, free) refl
has_sign-mark sign (suc n) s a c free =
    rw (append.cons _ "" (mark n s), append.nil (mark n s), a, has_sign-mark sign n s a c free) refl

has_sign-base64 :
    (sign : ℕ) (b : Bytes)
    → eqb b'a' sign ≡ false
    → eqb b'c' sign ≡ false
    → eqb b'e' sign ≡ false
    → has_sign sign (base64 b) ≡ false
unfolding base64
has_sign-base64 sign [] a c e = rw e refl
has_sign-base64 sign (n ∷ ns) a c e =
    has_sign-mark sign n (base64 ns) a c (has_sign-base64 sign ns a c e)

mark-nonempty : (n : ℕ) (s : String) → (mark n s == "") ≡ false
unfolding mark
mark-nonempty zero s = rw (append.cons _ "" s, append.nil s, compare.cons-nil _ s) refl
mark-nonempty (suc n) s =
    rw (append.cons _ "" (mark n s), append.nil (mark n s), compare.cons-nil _ (mark n s)) refl

base64-nonempty : (b : Bytes) → (base64 b == "") ≡ false
unfolding base64
base64-nonempty [] = refl
base64-nonempty (n ∷ ns) = mark-nonempty n (base64 ns)

abbrev pub Table : Type 0
Table = List (List (Json ℕ))

-- The place of an array in the table, and the array of a place.
pub place : Table → List (Json ℕ) → Option ℕ
unfolding same_list same_json
place [] l = none
place (m ∷ ms) l = elim (same_list same_json m l) [
  | some _ ↦ some zero
  | none ↦ elim (place ms l) [ none ↦ none | some n ↦ some (suc n) ]
]

unfoldable pub at : Table → ℕ → Option (List (Json ℕ))
at [] n = none
at (m ∷ ms) zero = some m
at (m ∷ ms) (suc n) = at ms n

pub at-place :
    (table : Table) (l : List (Json ℕ)) (n : ℕ) → place table l ≡ some n → at table n ≡ some l
unfolding place at
at-place [] l n e = ground arith
at-place (m ∷ ms) l n e = elim (Option-cases (same_list same_json m l)) [
  | inr (p, found) ↦ let here : zero ≡ n = ground arith in rw (sym here) (ap some p)
  | inl absent ↦ elim (Option-cases (place ms l)) [
    | inl missing ↦ ground arith
    | inr (k, later) ↦
        let there : suc k ≡ n = ground arith in rw (sym there) (at-place ms l k later)
  ]
]

size : Bytes → ℕ
size [] = zero
size (_ ∷ bs) = suc (size bs)

codes : String → Bytes
codes String.[] = []
codes (String.◌∷◌ c s) = code c ∷ codes s

unfoldable pub position : Option ℕ → Option Bytes
position none = none
position (some n) = some (n ∷ [])

module _ (table : Table) where
  unfoldable pub encoding : Encoding ℕ
  unfolding mark same_json bump base64 unbase64 place at size codes position
  encoding = record {
    base64 = base64;
    unbase64 = unbase64;
    bytes = codes;
    -- not a hash that anyone should use
    sha256 = λ b. size b ∷ [];
    gzip = good;
    marshal = λ l. position (place table l);
    unmarshal = elim [ [] ↦ none | n ∷ _ ↦ at table n ];
    to_lower = λ s. s;
    quote = λ s. s;
  }

  unmarshal-marshal :
      (l : List (Json ℕ)) (b : Bytes) → encoding.marshal l ≡ some b → encoding.unmarshal b ≡ some l
  unfolding encoding position
  unmarshal-marshal l b e = elim (Option-cases (place table l)) [
    | inl missing ↦ ground arith
    | inr (n, found) ↦
        let here : n ∷ [] ≡ b = ground arith in rw (sym here) (at-place table l n found)
  ]

  pub encoding_laws : EncodingLaws encoding
  unfolding encoding
  encoding_laws = record {
    unbase64-base64 = unbase64-base64;
    unmarshal-marshal = unmarshal-marshal;
    base64-marshal = λ l b e. base64-nonempty b;
    base64-tilde = λ b. has_sign-base64 tilde b refl refl refl;
    base64-stop = λ b. has_sign-base64 b'.' b refl refl refl;
  }
