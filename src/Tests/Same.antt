-- ===== src/Tests/Same.antt =====
-- Tests that give a proof, for the tables of the other tests.
use xmiete.Prelude.{
  ℕ, eqb, String, Bool, true, false, Option, none, some, List, [], ◌∷◌, ◌==◌, eq_iff, ◌≡◌, refl,
  arith,
}

-- A proof that two values are the same, if a test says so.
abbrev pub Same : Type 0 → Type 0
Same R = (r q : R) → Option (r ≡ q)

abbrev test : (b : Bool) → Option (b ≡ true)
test true = some refl
test false = none

unfoldable pub same_text : Same String
same_text s t = elim (test (s == t)) [ some e ↦ some ((eq_iff s t).0 e) | none ↦ none ]

pub number_eq : (m n : ℕ) → eqb m n ≡ true → m ≡ n
number_eq m n e = ground arith

unfoldable pub same_number : Same ℕ
same_number m n = elim (test (eqb m n)) [ some e ↦ some (number_eq m n e) | none ↦ none ]

module _ {R : Type 0} (same : Same R) where
  unfoldable pub same_list : Same (List R)
  same_list [] [] = some refl
  same_list (r ∷ rs) (q ∷ qs) = elim (same r q) [
    | none ↦ none
    | some p ↦ elim (same_list rs qs) [ none ↦ none | some ps ↦ some (λ i. p i ∷ ps i) ]
  ]
  same_list _ _ = none

  unfoldable pub same_option : Same (Option R)
  same_option none none = some refl
  same_option (some r) (some q) = elim (same r q) [ none ↦ none | some p ↦ some (λ i. some (p i)) ]
  same_option _ _ = none
