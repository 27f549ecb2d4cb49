-- ===== src/Prelude/Lists.antt =====
-- Boolean tests over lists, and association lists keyed by texts.
use Prim.Native.String.{String}
use mathlib.Core.Bool.{Bool, true, false, ◌||◌}
use mathlib.Core.Option.{Option, none, some}
use mathlib.Core.List.{List, [], ◌∷◌}
use text.Mathlib.Text.{◌==◌}
use xmiete.Prelude.Tests.{if◌then◌else◌}

module _ {ℓ} {A : Type ℓ} where
  -- A loop that stops at the first element which passes the test.
  abbrev pub any : (A → Bool) → List A → Bool
  any p [] = false
  any p (x ∷ xs) = p x || any p xs

abbrev pub is_empty {ℓ} : {A : Type ℓ} → List A → Bool
is_empty [] = true
is_empty (_ ∷ _) = false

abbrev pub All {ℓ κ} : {A : Type ℓ} → (A → Type κ) → List A → Type κ
All P [] = Unit
All P (x ∷ xs) = P x × All P xs

-- Two lists whose elements are related in pairs.
abbrev pub Pairwise {ℓ κ} : {A : Type ℓ} {B : Type κ} → (A → B → Type 0) → List A → List B → Type 0
Pairwise R [] [] = Unit
Pairwise R (x ∷ xs) (y ∷ ys) = R x y × Pairwise R xs ys
Pairwise R _ _ = ⊥

-- A map after a loop that sets the entries, from what it was before; the last one set stands first.
abbrev pub filled {ℓ} : {A : Type ℓ} → List A → List A → List A
filled before [] = before
filled before (x ∷ xs) = filled (x ∷ before) xs

module _ {ℓ} {V : Type ℓ} where
  -- A Go map with text keys.
  unfoldable pub lookup : String → List (String × V) → Option V
  lookup k [] = none
  lookup k ((j, v) ∷ m) = if j == k then some v else lookup k m

  -- delete(m, k)
  unfoldable pub erase : String → List (String × V) → List (String × V)
  erase k [] = []
  erase k ((j, v) ∷ m) = let rest = erase k m in if j == k then rest else (j, v) ∷ rest

  -- m[k] = v
  unfoldable pub put : String → V → List (String × V) → List (String × V)
  unfolding erase
  put k v m = (k, v) ∷ erase k m
