-- ===== src/Amount.antt =====
-- Go's float64, as the program uses it: the operations are those of the language, and `A` is its
-- type. A theorem that needs a law of these operations has it as a hypothesis.
use xmiete.Prelude.{ℕ, String, Bool}

pub record Amount (A : Type 0) : Type 0 where
  -- 0
  pub zero : A
  -- `decimal n k` is the constant n / 10 ^ k, such as 1.005 for `decimal 1005 3`
  pub decimal : ℕ → ℕ → A
  pub add : A → A → A
  pub sub : A → A → A
  pub mul : A → A → A
  -- `<`, `<=` and `==`, each false at a NaN
  pub lt : A → A → Bool
  pub le : A → A → Bool
  pub eq : A → A → Bool
  -- fmt's `%.2f` and `%.2g`
  pub format_2f : A → String
  pub format_2g : A → String
