-- ===== src/Sdk/Openid4vp/Uuid.antt =====
-- The identifiers of `newUUID` in sdk-examples/go/openid4vp/service.go.
use Prim.Native.Char.{Char}
use xmiete.Prelude.{
  ℕ, zero, suc, ◌/◌, ◌<◌, String, Bool, true, ◌&&◌, eqb, some, [], ◌∷◌, arith, ◌≡◌, refl, ◌⊎◌, inl,
  inr, leb,
}
use xmiete.Prelude.Results.{good}
use xmiete.Crypto.{Bytes}
use xmiete.Sdk.Openid4vp.Request.{sign_in, hex_digit, hex, uuid_text, version_4, variant, new_uuid}

-- A test that every byte below a bound passes.
passes_to : (ℕ → Bool) → ℕ → Bool
passes_to test zero = true
passes_to test (suc bound) = passes_to test bound && test bound

both : (a b : Bool) → a && b ≡ true → (a ≡ true) × (b ≡ true)
both a b e = ground arith

byte_passes :
    (test : ℕ → Bool) (bound byte : ℕ)
    → passes_to test bound ≡ true
    → byte < bound
    → test byte ≡ true
unfolding passes_to
byte_passes test zero byte passed below = elim below [ ]
byte_passes test (suc bound) byte passed below =
    let (earlier, here) = both (passes_to test bound) (test bound) passed in
    ground (arith, byte_passes test bound byte earlier)

version_table : passes_to (λ b. eqb (version_4 b / 16) 4) 256 ≡ true
unfolding passes_to
version_table = refl

variant_table : passes_to (λ b. leb 8 (variant b / 16) && leb (variant b / 16) 11) 256 ≡ true
unfolding passes_to
variant_table = refl

-- Sixteen bytes.
abbrev pub bytes_16 :
    (front : ℕ × ℕ × ℕ × ℕ × ℕ × ℕ) (b6 b7 b8 : ℕ) (tail : ℕ × ℕ × ℕ × ℕ × ℕ × ℕ × ℕ) → Bytes
bytes_16 (a, b, c, d, e, f) b6 b7 b8 (g, h, i, j, k, l, m) =
    a ∷ b ∷ c ∷ d ∷ e ∷ f ∷ b6 ∷ b7 ∷ b8 ∷ g ∷ h ∷ i ∷ j ∷ k ∷ l ∷ m ∷ []

abbrev pub length : String → ℕ
length String.[] = zero
length (String.◌∷◌ c s) = suc (length s)

four : (n : ℕ) → eqb n 4 ≡ true → hex_digit n ≡ "4"
unfolding hex_digit
four n e = let is_four : n ≡ 4 = ground arith in rw is_four refl

-- 8, 9, a or b.
abbrev pub IsVariant : Char → Type 0
IsVariant c = (c ≡ "8") ⊎ ((c ≡ "9") ⊎ ((c ≡ "a") ⊎ (c ≡ "b")))

from_eight : (n : ℕ) → leb 8 n && leb n 11 ≡ true → (n ≡ 8) ⊎ ((n ≡ 9) ⊎ ((n ≡ 10) ⊎ (n ≡ 11)))
from_eight n e = ground arith

hex_digit-IsVariant : (n : ℕ) → leb 8 n && leb n 11 ≡ true → IsVariant (hex_digit n)
unfolding hex_digit
hex_digit-IsVariant n e = elim (from_eight n e) [
  | inl p ↦ rw p (inl refl)
  | inr (inl p) ↦ rw p (inr (inl refl))
  | inr (inr (inl p)) ↦ rw p (inr (inr (inl refl)))
  | inr (inr (inr p)) ↦ rw p (inr (inr (inr refl)))
]

-- The text of a UUID of version 4 (RFC 9562): 36 signs with dashes in their places, the version,
-- and the variant.
abbrev pub IsUuid : String → Type 0
IsUuid s =
    (length s ≡ 36)
    × (sign_in s 8 ≡ "-")
    × (sign_in s 13 ≡ "-")
    × (sign_in s 18 ≡ "-")
    × (sign_in s 23 ≡ "-")
    × (sign_in s 14 ≡ "4")
    × IsVariant (sign_in s 19)

-- Whichever sixteen bytes the source of randomness gives, the identifier has the form of a UUID of
-- version 4: its length, its dashes, its version and its variant.
pub new_uuid-IsUuid :
    (a b c d e f b6 b7 b8 g h i j k l m : ℕ)
    → b6 < 256
    → b8 < 256
    → (s : String) × (new_uuid (some (bytes_16 (a, b, c, d, e, f) b6 b7 b8 (g, h, i, j, k, l, m)))
        ≡ good s)
      × IsUuid s
unfolding new_uuid uuid_text hex
new_uuid-IsUuid a b c d e f b6 b7 b8 g h i j k l m p q = (
  uuid_text (bytes_16 (a, b, c, d, e, f) (version_4 b6) b7 (variant b8) (g, h, i, j, k, l, m)),
  refl,
  (
    refl,
    refl,
    refl,
    refl,
    refl,
    four (version_4 b6 / 16) (byte_passes _ 256 b6 version_table p),
    hex_digit-IsVariant (variant b8 / 16) (byte_passes _ 256 b8 variant_table q),
  ),
)
