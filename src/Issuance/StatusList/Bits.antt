-- ===== src/Issuance/StatusList/Bits.antt =====
-- The bits of the list that server/internal/issuance/statuslist.go builds.
use Prim.Native.Nat.{bit_or}
use xmiete.Prelude.{
  ℕ, zero, suc, ◌-◌, ◌/◌, ◌%◌, ◌^◌, ◌<◌, ltb, eqb, ◌≡◌, refl, sym, ◌∙◌, Bool, true, false, ◌&&◌,
  ◌||◌, List, [], ◌∷◌, arith, if◌then◌else◌, any, Bool-cases, inl, inr,
}
use xmiete.Prelude.Int.{ℤ, pos, negsuc}
use xmiete.Crypto.{Bytes}
use xmiete.Issuance.StatusList.{status_list_size, zeros, update_at, set_bit, set_bits, bitstring}

check_below : ℕ → (ℕ → Bool) → Bool
check_below zero test = true
check_below (suc n) test = test n && check_below n test

-- Setting the bit of place `k` of a byte sets it, and keeps the others.
abbrev set_keeps : ℕ → ℕ → ℕ → Bool
set_keeps k j b =
    eqb (bit_or b (2 ^ k) / 2 ^ j % 2) (if eqb k j then 1 else b / 2 ^ j % 2)
    && ltb (bit_or b (2 ^ k)) 256

bytes_checked : check_below 8 (λ k. check_below 8 (λ j. check_below 256 (set_keeps k j))) ≡ true
unfolding check_below
bytes_checked = refl

check_below_holds :
    (n : ℕ) (test : ℕ → Bool) → check_below n test ≡ true → (m : ℕ) → m < n → test m ≡ true
unfolding check_below
check_below_holds zero test e m lt = ground arith
check_below_holds (suc n) test e m lt =
    let below : check_below n test ≡ true = ground arith in
    elim (Bool-cases (ltb m n)) [
      | inl less ↦ check_below_holds n test below m (ground arith)
      | inr last ↦ let same : m ≡ n = ground arith in rw same (ground arith)
    ]

set_keeps_holds : (k j b : ℕ) → k < 8 → j < 8 → b < 256 → set_keeps k j b ≡ true
set_keeps_holds k j b kl jl bl =
    check_below_holds 256 _ (check_below_holds 8 _ (check_below_holds 8 _ bytes_checked k kl) j jl)
      b bl

equal : (x y : ℕ) (also : Bool) → eqb x y && also ≡ true → x ≡ y
equal x y also e = ground arith

same_place : (i j : ℕ) → eqb (i / 8) (j / 8) ≡ true → eqb (7 - i % 8) (7 - j % 8) ≡ eqb i j
same_place i j e = ground arith

other_place : (i j : ℕ) → eqb (i / 8) (j / 8) ≡ false → eqb i j ≡ false
other_place i j e = ground arith

abbrev pub byte_at : ℕ → Bytes → ℕ
byte_at i [] = 0
byte_at zero (b ∷ bs) = b
byte_at (suc i) (b ∷ bs) = byte_at i bs

abbrev pub size : Bytes → ℕ
size [] = 0
size (b ∷ bs) = suc (size bs)

-- The bit of an index, the first one of a byte being the most significant.
abbrev pub bit_at : ℕ → Bytes → ℕ
bit_at i bits = byte_at (i / 8) bits / 2 ^ (7 - i % 8) % 2

byte_at-update_at :
    (i j : ℕ) (f : ℕ → ℕ) (bits : Bytes)
    → i < size bits
    → byte_at j (update_at i f bits) ≡ (if eqb i j then f (byte_at j bits) else byte_at j bits)
unfolding update_at
byte_at-update_at i j f [] lt = ground arith
byte_at-update_at zero zero f (b ∷ bs) lt = refl
byte_at-update_at zero (suc j) f (b ∷ bs) lt = ground arith
byte_at-update_at (suc i) zero f (b ∷ bs) lt = ground arith
byte_at-update_at (suc i) (suc j) f (b ∷ bs) lt = ground (arith, byte_at-update_at i j f bs)

size-update_at : (i : ℕ) (f : ℕ → ℕ) (bits : Bytes) → size (update_at i f bits) ≡ size bits
unfolding update_at
size-update_at i f [] = refl
size-update_at zero f (b ∷ bs) = refl
size-update_at (suc i) f (b ∷ bs) = ground (arith, size-update_at i f bs)

-- As many bytes as the list has, each below 256.
abbrev pub IsBitstring : Bytes → Type 0
IsBitstring bits = (size bits ≡ 16384) × ((i : ℕ) → byte_at i bits < 256)

set_bit-IsBitstring :
    (i : ℕ) (bits : Bytes) → i < 131072 → IsBitstring bits → IsBitstring (set_bit i bits)
unfolding set_bit
set_bit-IsBitstring i bits lt (full, small) = (
  ground (arith, size-update_at (i / 8) (λ b. bit_or b (2 ^ (7 - i % 8))) bits),
  λ j.
      let e = byte_at-update_at (i / 8) j (λ b. bit_or b (2 ^ (7 - i % 8))) bits (omega arith) in
      let t =
        set_keeps_holds (7 - i % 8) 0 (byte_at j bits) (omega arith) (omega arith) (small j) in
      ground (arith, small j),
)

bit_at-set_bit :
    (i j : ℕ) (bits : Bytes)
    → i < 131072
    → IsBitstring bits
    → bit_at j (set_bit i bits) ≡ (if eqb i j then 1 else bit_at j bits)
unfolding set_bit
bit_at-set_bit i j bits lt (full, small) =
    let e =
      byte_at-update_at (i / 8) (j / 8) (λ b. bit_or b (2 ^ (7 - i % 8))) bits (omega arith) in
    let t =
      set_keeps_holds (7 - i % 8) (7 - j % 8) (byte_at (j / 8) bits) (omega arith) (omega arith)
        (small (j / 8)) in
    elim (Bool-cases (eqb (i / 8) (j / 8))) [
      | inl same ↦ rw (e, same, sym (same_place i j same)) (equal _ _ _ t)
      | inr differ ↦ rw (e, differ, other_place i j differ) refl
    ]

size-zeros : (n : ℕ) → size (zeros n) ≡ n
unfolding zeros
size-zeros zero = refl
size-zeros (suc n) = ground (arith, size-zeros n)

byte_at-zeros : (n i : ℕ) → byte_at i (zeros n) ≡ 0
unfolding zeros
byte_at-zeros zero i = refl
byte_at-zeros (suc n) zero = refl
byte_at-zeros (suc n) (suc i) = byte_at-zeros n i

abbrev pub is_index : ℕ → ℤ → Bool
is_index j (pos i) = eqb i j
is_index j (negsuc _) = false

abbrev pub is_listed : ℕ → List ℤ → Bool
is_listed j indices = ltb j status_list_size && any (is_index j) indices

listed_now :
    (i j x : ℕ) (later : Bool)
    → ltb i status_list_size ≡ true
    → (if ltb j status_list_size && later then 1 else (if eqb i j then 1 else x))
      ≡ (if ltb j status_list_size && (eqb i j || later) then 1 else x)
listed_now i j x later small = ground arith

too_large :
    (i j x : ℕ) (later : Bool)
    → ltb i status_list_size ≡ false
    → (if ltb j status_list_size && later then 1 else x)
      ≡ (if ltb j status_list_size && (eqb i j || later) then 1 else x)
too_large i j x later large = ground arith

no_bits : (n : ℕ) → 0 / n % 2 ≡ 0
no_bits n = ground arith

set_bits-IsBitstring :
    (indices : List ℤ) (bits : Bytes) → IsBitstring bits → IsBitstring (set_bits indices bits)
unfolding set_bits
set_bits-IsBitstring [] bits full = full
set_bits-IsBitstring (negsuc i ∷ indices) bits full = set_bits-IsBitstring indices bits full
set_bits-IsBitstring (pos i ∷ indices) bits full = elim (Bool-cases (ltb i status_list_size)) [
  | inl small ↦ rw small (
      set_bits-IsBitstring indices (set_bit i bits)
        (set_bit-IsBitstring i bits (ground arith) full))
  | inr large ↦ rw large (set_bits-IsBitstring indices bits full)
]

bit_at-set_bits :
    (indices : List ℤ) (j : ℕ) (bits : Bytes)
    → IsBitstring bits
    → bit_at j (set_bits indices bits) ≡ (if is_listed j indices then 1 else bit_at j bits)
unfolding set_bits
bit_at-set_bits [] j bits full = ground arith
bit_at-set_bits (negsuc i ∷ indices) j bits full = bit_at-set_bits indices j bits full
bit_at-set_bits (pos i ∷ indices) j bits full = elim (Bool-cases (ltb i status_list_size)) [
  | inl small ↦
      let rest =
        bit_at-set_bits indices j (set_bit i bits)
          (set_bit-IsBitstring i bits (ground arith) full) in
      let this = bit_at-set_bit i j bits (ground arith) full in
      rw (small, rest, this) (listed_now i j (bit_at j bits) (any (is_index j) indices) small)
  | inr large ↦
      rw (large, bit_at-set_bits indices j bits full)
        (too_large i j (bit_at j bits) (any (is_index j) indices) large)
]

zeros-IsBitstring : IsBitstring (zeros 16384)
zeros-IsBitstring = (size-zeros 16384, λ i. rw (byte_at-zeros 16384 i) (omega arith))

-- The bit of an index is set if the index is in the list and within its size, and not otherwise.
pub bitstring-listed :
    (indices : List ℤ) (j : ℕ)
    → bit_at j (bitstring indices) ≡ (if is_listed j indices then 1 else 0)
unfolding bitstring
bitstring-listed indices j =
    bit_at-set_bits indices j (zeros 16384) zeros-IsBitstring
    ∙ rw (byte_at-zeros 16384 (j / 8), no_bits (2 ^ (7 - j % 8))) refl

-- The list is of 16 KB, whatever is revoked.
pub bitstring-IsBitstring : (indices : List ℤ) → IsBitstring (bitstring indices)
unfolding bitstring
bitstring-IsBitstring indices = set_bits-IsBitstring indices (zeros 16384) zeros-IsBitstring
