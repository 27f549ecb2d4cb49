-- ===== src/Prelude/Int.antt =====
-- Go's int and int64 where no sum of the program overflows.
use Prim.Native.Nat.{ℕ, suc, ◌+◌, ◌-◌}
use Prim.Native.String.{String, ◌++◌}
use mathlib.Core.Bool.{Bool}
use xmiete.Prelude.Decimal.{decimal_text}
use xmiete.Prelude.Tests.{leb, if◌then◌else◌}

-- `negsuc n` is -(n + 1).
pub data ℤ : Type 0 where
  pos : ℕ → ℤ
  negsuc : ℕ → ℤ

-- fmt's `%d`
abbrev pub int_text : ℤ → String
int_text (pos n) = decimal_text n
int_text (negsuc n) = "-" ++ decimal_text (suc n)

abbrev pub pos_part : ℤ → ℕ
pos_part (pos n) = n
pos_part (negsuc n) = 0

abbrev pub neg_part : ℤ → ℕ
neg_part (pos n) = 0
neg_part (negsuc n) = suc n

-- a - b, as an integer.
abbrev pub sub_ℕ : ℕ → ℕ → ℤ
sub_ℕ a b = if leb b a then pos (a - b) else negsuc (b - a - 1)

infixl 65 ◌+ℤ◌
unfoldable pub ◌+ℤ◌ : ℤ → ℤ → ℤ
a +ℤ b = sub_ℕ (pos_part a + pos_part b) (neg_part a + neg_part b)

-- a <= b
abbrev pub leb_ℤ : ℤ → ℤ → Bool
leb_ℤ a b = leb (pos_part a + neg_part b) (pos_part b + neg_part a)
