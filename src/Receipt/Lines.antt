-- ===== src/Receipt/Lines.antt =====
-- The lines of the two receipts of server/internal/receipt/pdf.go.
use Prim.Native.String.{◌++◌ as join}
use mathlib.Core.List.{append-nil}
use xmiete.Prelude.{
  String, not, Option, none, some, List, [], ◌∷◌, ◌++◌, ◌==◌, ◌≡◌, refl, sym, if◌then◌else◌,
  Bool-cases, inl, inr,
}
use xmiete.Calendar.{Time}
use xmiete.Amount.{Amount}
use xmiete.Models.{Pledge, Trusteeship, Deposit}
use xmiete.Receipt.{
  Draw, ln, Fpdf, Drawing, ◌>>=◌, ◌>>◌, format_deposit_type, row, footer, amount_text, n,
  released_at, release_note, generated_text, is_positive, pledge_date_row, returned_rows,
  release_receipt,
}
use xmiete.Receipt.Texts.{
  joins, texts, Prints, prints_bind, prints_answer, prints_draw, prints_when, party_lines,
  heading_prints, row_prints, title_prints, footer_prints, parties_prints,
}

infixr 5 ◌>>-◌
abbrev ◌>>-◌ :
    {A R T : Type 0} {m : Drawing A R} {k : Drawing A T} {l l' : List String}
    → Prints m l
    → Prints k l'
    → Prints (m >>= λ _. k) (l ++ l')
p >>- q = prints_bind _ _ _ _ p (λ _. q)

module _ {A : Type 0} ⦃F : Amount A⦄ (G : Fpdf A) where
  abbrev pub pledge_date_lines : Option Pledge → List String
  pledge_date_lines none = []
  pledge_date_lines (some p) =
      if not (p.pledge_date == "") then "Pledge Date:" ∷ p.pledge_date ∷ [] else []

  -- The balance of the trust account, if it is positive, and else the deposit.
  abbrev pub total_returned : A → Option (Trusteeship A) → A
  total_returned amount none = amount
  total_returned amount (some t) = if is_positive G t.total_balance then t.total_balance else amount

  -- What a positive balance is made of, if there is positive interest.
  abbrev pub interest_lines : A → String → Option (Trusteeship A) → List String
  interest_lines amount currency none = []
  interest_lines amount currency (some t) =
      if is_positive G t.total_balance
      then (if is_positive G t.accrued_interest
          then "Principal:"
            ∷ amount_text G amount currency
            ∷ "Accrued Interest:"
            ∷ amount_text G t.accrued_interest currency
            ∷ []
          else [])
      else []

  abbrev pub release_lines : Deposit A → String → Time → List String
  release_lines d day generated =
      let currency = d.deposit.currency in
      ("Deposit Release Confirmation"
        ∷ "Kautionsfreigabe gemäß BGB § 551"
        ∷ join "Deposit ID: " d.id
        ∷ join "Released: " day
        ∷ [])
      ++ (party_lines d
          ++ (("ORIGINAL DEPOSIT"
                ∷ "Amount:"
                ∷ amount_text G d.deposit.amount currency
                ∷ "Type:"
                ∷ format_deposit_type d.deposit.type
                ∷ pledge_date_lines d.pledge)
              ++ (("RELEASE DETAILS" ∷ "Release Date:" ∷ day ∷ "Released By:" ∷ "Landlord" ∷ [])
                  ++ (interest_lines d.deposit.amount currency d.trusteeship
                      ++ ("Total Returned:"
                          ∷ amount_text G (total_returned d.deposit.amount d.trusteeship) currency
                          ∷ release_note
                          ∷ generated_text generated
                          ∷ [])))))

  pledge_date_prints :
      (w : A) (p : Option Pledge) → Prints (pledge_date_row G w p) (pledge_date_lines p)
  pledge_date_prints w none = record { reads = λ done. sym (append-nil (texts done)) }
  pledge_date_prints w (some p) =
      prints_when (not (p.pledge_date == "")) (row G w "Pledge Date:" p.pledge_date)
        ("Pledge Date:" ∷ p.pledge_date ∷ []) (row_prints G w "Pledge Date:" p.pledge_date)

  texts-returned :
      (w amount : A) (currency : String) (t : Option (Trusteeship A)) (done : List (Draw A))
      → texts (returned_rows G w amount currency t done).1
        ≡ texts done ++ interest_lines amount currency t
  unfolding row
  texts-returned w amount currency none done = simp joins
  texts-returned w amount currency (some t) done =
      elim (Bool-cases (is_positive G t.total_balance)) [
        | inl balance ↦ elim (Bool-cases (is_positive G t.accrued_interest)) [
          | inl interest ↦ rw (balance, interest) (simp joins)
          | inr idle ↦ rw (balance, idle) (simp joins)
        ]
        | inr empty ↦ rw empty (simp joins)
      ]

  returned_answer :
      (w amount : A) (currency : String) (t : Option (Trusteeship A)) (done : List (Draw A))
      → (returned_rows G w amount currency t done).0 ≡ total_returned amount t
  returned_answer w amount currency none done = refl
  returned_answer w amount currency (some t) done =
      elim (Bool-cases (is_positive G t.total_balance)) [
        | inl balance ↦ rw balance refl
        | inr empty ↦ rw empty refl
      ]

  -- The release receipt reads, wherever fpdf puts its lines: the title, the deposit, the day of the
  -- release, the parties, the deposit's amount and type, and what is returned, which is the balance
  -- of the trust account if that is positive, with the interest in it, and else the amount.
  pub release_receipt-texts :
      (d : Deposit A) (now generated : Time)
      → texts (release_receipt G d now generated []).1
        ≡ release_lines d (released_at d now) generated
  unfolding release_receipt
  release_receipt-texts d now generated =
      let day = released_at d now in
      let currency = d.deposit.currency in
      (prints_bind _ _ _ _
          (heading_prints G "Deposit Release Confirmation" "Kautionsfreigabe gemäß BGB § 551"
            (join "Deposit ID: " d.id) (join "Released: " day))
          (λ page_w.
            let w = F.sub page_w (n G 40) in
            parties_prints G page_w d
            >>- title_prints G w "ORIGINAL DEPOSIT"
            >>- row_prints G w "Amount:" (amount_text G d.deposit.amount currency)
            >>- row_prints G w "Type:" (format_deposit_type d.deposit.type)
            >>- pledge_date_prints w d.pledge
            >>- prints_draw (ln (n G 4))
            >>- title_prints G w "RELEASE DETAILS"
            >>- row_prints G w "Release Date:" day
            >>- row_prints G w "Released By:" "Landlord"
            >>- prints_answer (returned_rows G w d.deposit.amount currency d.trusteeship)
                (λ returned. (do
                  row G w "Total Returned:" (amount_text G returned currency)
                  footer G page_w release_note (generated_text generated)))
                _ _ _ (record { reads = texts-returned w d.deposit.amount currency d.trusteeship })
                (returned_answer w d.deposit.amount currency d.trusteeship)
                (row_prints G w "Total Returned:" _
                  >>- footer_prints G page_w release_note (generated_text generated)))).reads
        []
