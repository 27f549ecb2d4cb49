-- ===== src/Prelude/Results.antt =====
-- A value or the text of an error, for the functions that the program calls for their error's text.
use Prim.Native.String.{String, ◌++◌}
use mathlib.Core.Path.{◌≡◌, refl, sym}
use mathlib.Core.Logic.{◌≢◌, ◌⊎◌, inl, inr}
use mathlib.Core.Bool.{Bool, true, false, not}
use native.Mathlib.Omega.{arith}
use mathlib.Core.Option.{Option, none, some}
use text.Mathlib.Text.{◌==◌}
use text.Mathlib.TextEquality.{eq_iff}
use xmiete.Prelude.Tests.{if◌then◌else◌, Bool-cases}

pub data Result (R : Type 0) : Type 0 where
  good : R → Result R
  bad : String → Result R

infixl 5 ◌>>=◌
abbrev pub ◌>>=◌ : {R T : Type 0} → Result R → (R → Result T) → Result T
good r >>= f = f r
bad e >>= f = bad e

infixl 5 ◌>>◌
abbrev pub ◌>>◌ : {T : Type 0} → Result (Unit {0}) → Result T → Result T
m >> k = m >>= λ _. k

-- `if test { return nil, error }`
abbrev pub fail_if : Bool → String → Result (Unit {0})
fail_if test message = if test then bad message else good tt

abbrev pub given_or : {R : Type 0} → String → Option R → Result R
given_or message none = bad message
given_or message (some r) = good r

-- fmt.Errorf("prefix%w", err)
abbrev pub within : {R : Type 0} → String → Result R → Result R
within prefix (good r) = good r
within prefix (bad e) = bad (prefix ++ e)

pub bind-good :
    {R T : Type 0} (m : Result R) (f : R → Result T) (t : T)
    → (m >>= f) ≡ good t
    → (r : R) × (m ≡ good r) × (f r ≡ good t)
bind-good (good r) f t e = (r, refl, e)
bind-good (bad m) f t e = ground arith

pub fail_if-good :
    {T : Type 0} (test : Bool) (message : String) (m : Result T) (t : T)
    → (fail_if test message >> m) ≡ good t
    → (test ≡ false) × (m ≡ good t)
fail_if-good true message m t e = ground arith
fail_if-good false message m t e = (refl, e)

pub within-good :
    {R : Type 0} (prefix : String) (m : Result R) (r : R) → within prefix m ≡ good r → m ≡ good r
within-good prefix (good r) t e = e
within-good prefix (bad m) t e = ground arith

pub given_or-good :
    {R : Type 0} (message : String) (o : Option R) (r : R)
    → given_or message o ≡ good r
    → o ≡ some r
given_or-good message none r e = ground arith
given_or-good message (some q) r e = ground arith

pub good_injective : {R : Type 0} (r q : R) → good r ≡ good q → r ≡ q
good_injective r q e = ground arith

pub if-good :
    {R : Type 0} (test : Bool) (message : String) (m : Result R) (r : R)
    → (if test then bad message else m) ≡ good r
    → (test ≡ false) × (m ≡ good r)
if-good true message m r e = ground arith
if-good false message m r e = (refl, e)

-- The value, if there is one.
abbrev pub value_of : {R : Type 0} → Result R → Option R
value_of (good r) = some r
value_of (bad e) = none

pub holds : (b : Bool) → not b ≡ false → b ≡ true
holds true e = refl
holds false e = sym e

-- The test `s != t` that did not fail.
pub not_differs : (s t : String) → not (s == t) ≡ false → s ≡ t
not_differs s t e = (eq_iff s t).0 (holds (s == t) e)

pub differs : (s t : String) → (s == t) ≡ false → s ≢ t
differs s t e = λ p. let same = (eq_iff s t).1 p in cc

pub not_equal : (s t : String) → s ≢ t → (s == t) ≡ false
not_equal s t h = elim (Bool-cases (s == t)) [
  | inl same ↦ absurd (h ((eq_iff s t).0 same))
  | inr other ↦ other
]

pub Result-cases :
    {R : Type 0} (m : Result R) → ((r : R) × (m ≡ good r)) ⊎ ((e : String) × (m ≡ bad e))
Result-cases (good r) = inl (r, refl)
Result-cases (bad e) = inr (e, refl)
