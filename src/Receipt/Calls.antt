-- ===== src/Receipt/Calls.antt =====
-- The calls of go-pdf/fpdf that server/internal/receipt/pdf.go makes. A document is what it was told,
-- newest call first; fpdf's answers are functions of that. `A` is float64.
use xmiete.Prelude.{ℕ, String, Bool, List, ◌∷◌, if◌then◌else◌}
use xmiete.Prelude.Results.{Result}
use xmiete.Crypto.{Bytes}

pub data Draw (A : Type 0) : Type 0 where
  -- fpdf.New("P", "mm", "A4", ""), SetMargins and AddPage
  new_document : String → String → String → String → Draw A
  set_margins : A → A → A → Draw A
  add_page : Draw A
  -- family, style and size
  set_font : String → String → A → Draw A
  -- CellFormat: width, height, text, where to go next, and alignment; without border, fill and link
  cell : A → A → String → ℕ → String → Draw A
  -- MultiCell: width, height and text, to the left
  multi_cell : A → A → String → Draw A
  ln : A → Draw A
  set_draw_color : ℕ → ℕ → ℕ → Draw A
  set_text_color : ℕ → ℕ → ℕ → Draw A
  line : A → A → A → A → Draw A
  set_xy : A → A → Draw A

pub record Fpdf (A : Type 0) : Type 0 where
  -- GetPageSize, its first result, and GetY
  pub page_width : List (Draw A) → A
  pub get_y : List (Draw A) → A
  -- Output
  pub output : List (Draw A) → Result Bytes
  -- Go's `/` by 2
  pub half : A → A

abbrev pub Drawing : Type 0 → Type 0 → Type 0
Drawing A R = List (Draw A) → R × List (Draw A)

infixl 5 ◌>>=◌
abbrev pub ◌>>=◌ : {A R T : Type 0} → Drawing A R → (R → Drawing A T) → Drawing A T
◌>>=◌ m f done = let (r, done') = m done in f r done'

infixl 5 ◌>>◌
abbrev pub ◌>>◌ : {A T : Type 0} → Drawing A (Unit {0}) → Drawing A T → Drawing A T
m >> k = m >>= λ _. k

module _ {A : Type 0} where
  abbrev pub draw : Draw A → Drawing A (Unit {0})
  draw d done = (tt, d ∷ done)

  abbrev pub ask : {R : Type 0} → (List (Draw A) → R) → Drawing A R
  ask f done = (f done, done)

  abbrev pub nothing : Drawing A (Unit {0})
  nothing done = (tt, done)

  abbrev pub when : Bool → Drawing A (Unit {0}) → Drawing A (Unit {0})
  when test m = if test then m else nothing
