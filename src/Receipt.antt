-- ===== src/Receipt.antt =====
-- The PDF receipts: server/internal/receipt/pdf.go. The child Calls has the calls of fpdf, Parts the
-- blocks that both receipts have, Texts and Lines what is to be read on them, and ReleaseDay which
-- day a release receipt names.
mod Calls
mod Parts
pub mod Texts
pub mod Lines
pub mod ReleaseDay
unfoldable pub use Calls.*
unfoldable pub use Parts.*
use Prim.Native.String.{◌++◌}
use xmiete.Prelude.{
  String, Bool, true, false, not, ◌&&◌, Option, none, some, List, [], ◌∷◌, ◌==◌, if◌then◌else◌,
}
use xmiete.Prelude.Results.{Result, within}
use xmiete.Calendar.{Time, format_date, date_of, format_datetime}
use xmiete.Amount.{Amount}
use xmiete.Crypto.{Bytes}
use xmiete.Models.{HistoryEntry, Pledge, Trusteeship, Deposit, released, same_state}

-- The day of the first entry with the state RELEASED, or today.
unfoldable pub release_day : List HistoryEntry → Time → String
unfolding same_state
release_day [] now = format_date (date_of now)
release_day (h ∷ hs) now =
    let rest = release_day hs now in
    if same_state h.state released then format_date (date_of h.timestamp) else rest

unfoldable pub released_at : {A : Type 0} → Deposit A → Time → String
unfolding release_day
released_at d now = release_day d.deposit.history now

abbrev pub confirmed_text : Bool → String
confirmed_text is_confirmed = if is_confirmed then "Yes" else "No"

abbrev pub protection_text : String → String
protection_text date = if date == "" then "Confirmed" else "Confirmed" ++ (" " ++ date)

abbrev pub receipt_note : String
receipt_note =
    "This receipt was generated automatically by XMiete. "
    ++ ("Where the tenant holds a compatible EUDI Wallet, a Qualified Electronic Attestation of "
        ++ ("Attributes (QEAA) has been or will be issued as the tamper-evident digital credential "
            ++ "for this deposit."))

abbrev pub release_note : String
release_note =
    "This release confirmation was generated automatically by XMiete. "
    ++ ("It confirms that the rental deposit has been released by the landlord and the funds are to "
        ++ "be returned to the tenant.")

abbrev pub generated_text : Time → String
generated_text now = "Generated " ++ (format_datetime now ++ " UTC")

module _ {A : Type 0} ⦃F : Amount A⦄ (G : Fpdf A) where
  open F use {zero, sub, lt}
  open G use {output}

  -- The value that is below another, as in `x > 0`.
  abbrev pub is_positive : A → Bool
  is_positive a = lt zero a

  abbrev pub pledge_rows : A → Option Pledge → Drawing A (Unit {0})
  pledge_rows content_w none = nothing
  pledge_rows content_w (some p) = do
    row G content_w "Pledge Date:" p.pledge_date
    row G content_w "Statutory Basis:" p.statutory_basis
    row G content_w "Confirmed by Bank:" (confirmed_text p.is_confirmed_by_bank)

  abbrev pub trust_rows : A → String → Option (Trusteeship A) → Drawing A (Unit {0})
  trust_rows content_w currency none = nothing
  trust_rows content_w currency (some t) = do
    draw (ln (n G 4))
    section_title G content_w "TRUST ACCOUNT (BGB § 551 Abs. 3)"
    when (not (t.trustee_entity == "")) (row G content_w "Trustee:" t.trustee_entity)
    when (not (t.trust_account_iban == "")) (row G content_w "Trust IBAN:" t.trust_account_iban)
    when t.insolvency_protection_confirmed (
        row G content_w "Insolvency Protection:"
          (protection_text t.insolvency_protection_confirmed_date))
    when (is_positive t.accrued_interest)
        (row G content_w "Accrued Interest:" (amount_text G t.accrued_interest currency))

  -- What is drawn; the clock is read for the date of the issue and for the footer.
  unfoldable pub receipt : Deposit A → Time → Time → Drawing A (Unit {0})
  unfolding heading parties section_title row format_deposit_type footer
  receipt d issued generated = do
    page_w ←
        heading G "Rental Deposit Receipt" "Kautionsquittung gemäß BGB § 551"
          ("Deposit ID: " ++ d.id) ("Issued: " ++ format_date (date_of issued))
    let content_w = sub page_w (n G 40)
    parties G page_w d
    section_title G content_w "DEPOSIT DETAILS"
    row G content_w "Amount:" (amount_text G d.deposit.amount d.deposit.currency)
    row G content_w "Type:" (format_deposit_type d.deposit.type)
    pledge_rows content_w d.pledge
    trust_rows content_w d.deposit.currency d.trusteeship
    footer G page_w receipt_note (generated_text generated)

  unfoldable pub generate : Deposit A → Time → Time → Result Bytes
  unfolding receipt
  generate d issued generated = within "pdf output: " (output (receipt d issued generated []).1)

  abbrev pub pledge_date_row : A → Option Pledge → Drawing A (Unit {0})
  pledge_date_row content_w none = nothing
  pledge_date_row content_w (some p) =
      when (not (p.pledge_date == "")) (row G content_w "Pledge Date:" p.pledge_date)

  -- The amount that is returned, after the rows that it is made of.
  abbrev pub returned_rows : A → A → String → Option (Trusteeship A) → Drawing A A
  returned_rows content_w amount currency none = λ done. (amount, done)
  returned_rows content_w amount currency (some t) =
      if is_positive t.total_balance
      then (do
        when (is_positive t.accrued_interest) (do
          row G content_w "Principal:" (amount_text G amount currency)
          row G content_w "Accrued Interest:" (amount_text G t.accrued_interest currency))
        λ done. (t.total_balance, done))
      else (λ done. (amount, done))

  -- The clock is read where no entry has the state RELEASED, and for the footer.
  unfoldable pub release_receipt : Deposit A → Time → Time → Drawing A (Unit {0})
  unfolding heading parties section_title row format_deposit_type footer released_at
  release_receipt d now generated = do
    let release_date = released_at d now
    page_w ←
        heading G "Deposit Release Confirmation" "Kautionsfreigabe gemäß BGB § 551"
          ("Deposit ID: " ++ d.id) ("Released: " ++ release_date)
    let content_w = sub page_w (n G 40)
    parties G page_w d
    section_title G content_w "ORIGINAL DEPOSIT"
    row G content_w "Amount:" (amount_text G d.deposit.amount d.deposit.currency)
    row G content_w "Type:" (format_deposit_type d.deposit.type)
    pledge_date_row content_w d.pledge
    draw (ln (n G 4))
    section_title G content_w "RELEASE DETAILS"
    row G content_w "Release Date:" release_date
    row G content_w "Released By:" "Landlord"
    returned ← returned_rows content_w d.deposit.amount d.deposit.currency d.trusteeship
    row G content_w "Total Returned:" (amount_text G returned d.deposit.currency)
    footer G page_w release_note (generated_text generated)

  unfoldable pub generate_release_receipt : Deposit A → Time → Time → Result Bytes
  unfolding release_receipt
  generate_release_receipt d now generated =
      within "pdf output: " (output (release_receipt d now generated []).1)
