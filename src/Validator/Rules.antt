-- ===== src/Validator/Rules.antt =====
-- server/internal/validator/rules.go: the statutory rules of each country.
use Prim.Native.String.{◌++◌}
use xmiete.Prelude.{String, Bool, true, false, List, [], ◌∷◌}
use xmiete.Amount.{Amount}

pub record JurisdictionRule (A : Type 0) : Type 0 where
  pub statutory_bases : List String
  pub currency : String
  pub max_months : A
  pub allowed_types : List String
  pub interest_required : Bool

-- strings.Join
abbrev pub join : String → List String → String
join separator [] = ""
join separator (s ∷ []) = s
join separator (s ∷ t ∷ ts) = s ++ (separator ++ join separator (t ∷ ts))

abbrev pub primary_statutory_ref : {A : Type 0} → JurisdictionRule A → String
primary_statutory_ref r = elim r.statutory_bases [ [] ↦ "" | b ∷ _ ↦ b ]

abbrev pub allowed_types_string : {A : Type 0} → JurisdictionRule A → String
allowed_types_string r = join ", " r.allowed_types

module _ {A : Type 0} ⦃F : Amount A⦄ where
  open F use {decimal}

  -- A rule that allows every type and does not require interest.
  abbrev rule : List String → String → A → JurisdictionRule A
  rule statutory_bases currency max_months = record {
    statutory_bases = statutory_bases;
    currency = currency;
    max_months = max_months;
    allowed_types = [];
    interest_required = false;
  }

  abbrev pub jurisdiction_rules : List (String × JurisdictionRule A)
  jurisdiction_rules =
      (
        "DE",
        record (rule ("BGB § 551" ∷ []) "EUR" (decimal 3 0)) {
          allowed_types = "CASH_EQUIVALENT" ∷ "BANK_GUARANTEE" ∷ "SURETY" ∷ [];
        },
      )
      ∷ ("CH", record (rule ("OR Art. 257e" ∷ []) "CHF" (decimal 3 0)) { interest_required = true })
      ∷ ("AT", rule ("MRG § 16b" ∷ "ABGB § 1346" ∷ []) "EUR" (decimal 3 0))
      ∷ ("BE", rule ("Woninghuurwet" ∷ "Code civil belge" ∷ []) "EUR" (decimal 2 0))
      ∷ (
        "NL",
        record (rule ("BW Art. 7:261" ∷ []) "EUR" (decimal 2 0)) {
          allowed_types = "CASH_EQUIVALENT" ∷ [];
        },
      )
      ∷ (
        "NO",
        record (rule ("Husleieloven § 3-5" ∷ []) "NOK" (decimal 6 0)) { interest_required = true },
      )
      ∷ ("GB", rule ("Housing Act 2004" ∷ "Tenant Fees Act 2019" ∷ []) "GBP" (decimal 115 2))
      ∷ (
        "FR",
        record (rule ("Loi ALUR" ∷ "Loi 89-462" ∷ []) "EUR" (decimal 1 0)) {
          allowed_types = "CASH_EQUIVALENT" ∷ "SURETY" ∷ [];
        },
      )
      ∷ ("ES", rule ("LAU Art. 36" ∷ []) "EUR" (decimal 1 0))
      ∷ []
