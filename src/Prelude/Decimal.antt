-- ===== src/Prelude/Decimal.antt =====
-- fmt's `%d` on a natural number.
use Prim.Native.Nat.{ℕ, zero, suc, ◌/◌, ◌%◌}
use Prim.Native.String.{String, ◌++◌}
use mathlib.Core.List.{List, [], ◌∷◌}
use xmiete.Prelude.Tests.{ltb, if◌then◌else◌}

abbrev numerals : List String
numerals = "0" ∷ "1" ∷ "2" ∷ "3" ∷ "4" ∷ "5" ∷ "6" ∷ "7" ∷ "8" ∷ "9" ∷ []

abbrev nth_text : List String → ℕ → String
nth_text [] n = ""
nth_text (s ∷ ss) zero = s
nth_text (s ∷ ss) (suc n) = nth_text ss n

abbrev pub digit_text : ℕ → String
digit_text d = nth_text numerals d

-- A number of at most `rounds` digits.
written_in : ℕ → ℕ → String
written_in zero n = ""
written_in (suc rounds) n =
    let front = written_in rounds (n / 10) in
    let last = digit_text (n % 10) in if ltb n 10 then last else front ++ last

-- A number has fewer digits than its successor has units.
unfoldable pub decimal_text : ℕ → String
unfolding written_in
decimal_text n = written_in (suc n) n
