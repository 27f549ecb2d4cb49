-- ===== src/Receipt/Parts.antt =====
-- The blocks that both receipts of server/internal/receipt/pdf.go have.
use Prim.Native.String.{◌++◌}
use xmiete.Prelude.{ℕ, String, not, Option, none, some, ◌==◌, if◌then◌else◌}
use xmiete.Amount.{Amount}
use xmiete.Models.{Address, Deposit, DepositType, cash_equivalent, bank_guarantee, insurance}
use xmiete.Receipt.Calls.{
  new_document, set_margins, add_page, set_font, cell, multi_cell, ln, set_draw_color,
  set_text_color, line, set_xy, Fpdf, Drawing, ◌>>=◌, ◌>>◌, draw, ask, nothing, when,
}

unfoldable pub format_deposit_type : DepositType → String
format_deposit_type t =
    if t == cash_equivalent
    then "Cash Equivalent (Barkaution)"
    else if t == bank_guarantee
    then "Bank Guarantee (Bankbürgschaft)"
    else if t == insurance
    then "Insurance (Kautionsversicherung)"
    else t

module _ {A : Type 0} ⦃F : Amount A⦄ (G : Fpdf A) where
  open F use {decimal, add, sub, lt, format_2f}
  open G use {page_width, get_y, half}

  -- A whole number of Go, as a float64.
  abbrev pub n : ℕ → A
  n k = decimal k 0

  abbrev pub bold_then_plain : String → Drawing A (Unit {0}) → Drawing A (Unit {0})
  bold_then_plain style text = do
    draw (set_font "Helvetica" style (n 10))
    text
    draw (set_font "Helvetica" "" (n 10))

  -- From left to right at the current height.
  unfoldable pub divider : A → Drawing A (Unit {0})
  divider page_w = do y ← ask get_y; y' ← ask get_y; draw (line (n 20) y (sub page_w (n 20)) y')

  -- `row`: a label of width 60 and its value.
  unfoldable pub row : A → String → String → Drawing A (Unit {0})
  row content_w label value = do
    draw (cell (n 60) (n 5) label 0 "L")
    draw (cell (sub content_w (n 60)) (n 5) value 1 "L")

  abbrev pub amount_text : A → String → String
  amount_text a currency = format_2f a ++ (" " ++ currency)

  -- The new page with its title, and the reference to the deposit with a date.
  unfoldable pub heading : String → String → String → String → Drawing A A
  unfolding divider
  heading title subtitle reference dated = do
    draw (new_document "P" "mm" "A4" "")
    draw (set_margins (n 20) (n 20) (n 20))
    draw add_page
    page_w ← ask page_width
    let content_w = sub page_w (n 40)
    draw (set_font "Helvetica" "B" (n 18))
    draw (cell content_w (n 10) title 1 "C")
    draw (set_font "Helvetica" "" (n 10))
    draw (cell content_w (n 6) subtitle 1 "C")
    draw (ln (n 6))
    draw (set_draw_color 180 180 180)
    divider page_w
    draw (ln (n 6))
    draw (set_font "Helvetica" "" (n 9))
    draw (set_text_color 100 100 100)
    draw (cell (half content_w) (n 5) reference 0 "L")
    draw (cell (half content_w) (n 5) dated 1 "R")
    draw (set_text_color 0 0 0)
    draw (ln (n 6))
    λ done. (page_w, done)

  abbrev pub address_cells : A → Option Address → Drawing A (Unit {0})
  address_cells col_w none = nothing
  address_cells col_w (some a) = do
    draw (cell col_w (n 5) a.street 1 "L")
    draw (cell col_w (n 5) (a.zip ++ (" " ++ a.city)) 1 "L")

  abbrev pub max : A → A → A
  max a b = if lt b a then a else b

  -- The columns TENANT and PROPERTY, the landlord, and a divider.
  unfoldable pub parties : A → Deposit A → Drawing A (Unit {0})
  unfolding divider
  parties page_w d = do
    let content_w = sub page_w (n 40)
    let col_w = half content_w
    start_y ← ask get_y
    bold_then_plain "B" (draw (cell col_w (n 6) "TENANT" 1 "L"))
    draw (cell col_w (n 5) (d.tenant.first_name ++ (" " ++ d.tenant.last_name)) 1 "L")
    draw (cell col_w (n 5) d.tenant.email 1 "L")
    address_cells col_w d.tenant.address
    tenant_end_y ← ask get_y
    draw (set_xy (half page_w) start_y)
    bold_then_plain "B" (draw (cell col_w (n 6) "PROPERTY" 1 "L"))
    address_cells col_w (some d.property.address)
    when (not (d.property.unit_id == ""))
        (draw (cell col_w (n 5) ("Unit: " ++ d.property.unit_id) 1 "L"))
    y ← ask get_y
    draw (set_xy (n 20) (max tenant_end_y y))
    draw (ln (n 4))
    bold_then_plain "B" (draw (cell content_w (n 6) "LANDLORD" 1 "L"))
    draw (cell content_w (n 5) d.landlord.name 1 "L")
    draw (ln (n 6))
    divider page_w
    draw (ln (n 6))

  -- The title of a block of rows.
  unfoldable pub section_title : A → String → Drawing A (Unit {0})
  section_title content_w title = bold_then_plain "B" (draw (cell content_w (n 6) title 1 "L"))

  -- A note in small print, and when the receipt was made.
  unfoldable pub footer : A → String → String → Drawing A (Unit {0})
  unfolding divider
  footer page_w note generated = do
    let content_w = sub page_w (n 40)
    draw (ln (n 10))
    divider page_w
    draw (ln (n 4))
    draw (set_font "Helvetica" "I" (n 8))
    draw (set_text_color 120 120 120)
    draw (multi_cell content_w (n 4) note)
    draw (ln (n 2))
    draw (cell content_w (n 4) generated 1 "R")
