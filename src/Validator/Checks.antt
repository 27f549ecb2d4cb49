-- ===== src/Validator/Checks.antt =====
-- server/internal/validator/validator.go: `Validate` and its three checks. `quote` is fmt's `%q`.
use Prim.Native.String.{◌++◌}
use text.Mathlib.Text.{find?}
use xmiete.Prelude.{
  String, Bool, true, false, not, ◌&&◌, ◌||◌, Option, none, some, [], ◌==◌, any, lookup, is_empty,
  if◌then◌else◌,
}
use xmiete.Calendar.{Time, format_rfc3339}
use xmiete.Amount.{Amount}
use xmiete.Models.{
  DepositType, cash_equivalent, bank_guarantee, insurance, Trusteeship, Pledge, Deposit,
}
use xmiete.Validator.Report.{Report, error, warning, info, has_errors, report_if, add, ◌▷◌}
use xmiete.Validator.Rules.{
  JurisdictionRule, join, primary_statutory_ref, allowed_types_string, jurisdiction_rules,
}

-- strings.Contains
abbrev pub contains : String → String → Bool
contains s t = elim (find? s t) [ none ↦ false | some _ ↦ true ]

abbrev is_none : {R : Type 0} → Option R → Bool
is_none none = true
is_none (some _) = false

-- The types that `checkDepositType` knows.
abbrev pub is_known_type : DepositType → Bool
is_known_type t = t == cash_equivalent || t == bank_guarantee || t == insurance || t == "SURETY"

abbrev given_basis : Option Pledge → String
given_basis none = ""
given_basis (some p) = p.statutory_basis

module _ {A : Type 0} where
  -- A statutory basis is given, and is none of those of the rule.
  abbrev has_unexpected_basis : JurisdictionRule A → Option Pledge → Bool
  has_unexpected_basis rule none = false
  has_unexpected_basis rule (some p) =
      not (p.statutory_basis == "")
      && not (is_empty rule.statutory_bases)
      && not (any (contains p.statutory_basis) rule.statutory_bases)

  abbrev has_unconfirmed_protection : Option (Trusteeship A) → Bool
  has_unconfirmed_protection none = false
  has_unconfirmed_protection (some t) = not t.insolvency_protection_confirmed

  -- The type is given, the rule restricts the types, and the type is none of them.
  abbrev pub is_disallowed : JurisdictionRule A → DepositType → Bool
  is_disallowed rule type =
      not (is_empty rule.allowed_types)
      && not (type == "")
      && not (any (λ t. type == t) rule.allowed_types)

module _ {A : Type 0} ⦃F : Amount A⦄ (quote : String → String) where
  open F use {zero, mul, lt, le, eq, decimal, format_2f, format_2g}

  unfoldable pub check_required : Deposit A → Report → Report
  check_required d r =
      r
      ▷ report_if (d.tenant.first_name == "" || d.tenant.last_name == "" || d.tenant.email == "")
          error "MISSING_TENANT_FIELDS" "tenant"
          "tenant.first_name, tenant.last_name and tenant.email are required" ""
      ▷ report_if (d.landlord.name == "") error "MISSING_LANDLORD_NAME" "landlord.name"
          "landlord.name is required" ""
      ▷ report_if (le d.deposit.amount zero) error "INVALID_AMOUNT" "deposit.amount"
          "deposit.amount must be greater than zero" ""
      ▷ report_if (d.deposit.currency == "") error "MISSING_CURRENCY" "deposit.currency"
          "deposit.currency is required (ISO 4217)" ""
      ▷ report_if (d.deposit.type == "") error "MISSING_TYPE" "deposit.type"
          "deposit.type is required" ""
      ▷ report_if (d.meta.version == "") warning "MISSING_VERSION" "meta.version"
          "meta.version should be set (e.g. \"2.2.0\")" ""
      ▷ report_if (d.property.address.country == "") warning "MISSING_COUNTRY"
          "property.address.country"
          "property.address.country is required for jurisdiction-specific validation" ""

  unfoldable pub check_deposit_type : Deposit A → Report → Report
  check_deposit_type d r =
      if d.deposit.type == ""
      then r
      else report_if (not (is_known_type d.deposit.type)) error "UNKNOWN_TYPE" "deposit.type"
          ("unknown deposit.type "
            ++ (quote d.deposit.type
                ++ " — must be CASH_EQUIVALENT, BANK_GUARANTEE, INSURANCE, or SURETY"))
          "" r

  -- The tests for one rule.
  unfoldable pub check_rule : Deposit A → A → String → JurisdictionRule A → Report → Report
  check_rule d monthly_rent country rule r =
      let ref = primary_statutory_ref rule in
      let max_amount = mul rule.max_months monthly_rent in
      r
      ▷ report_if
          (not (rule.currency == "")
            && not (d.deposit.currency == "")
            && not (d.deposit.currency == rule.currency))
          error "WRONG_CURRENCY" "deposit.currency"
          (country
            ++ (" requires currency " ++ (rule.currency ++ (", got " ++ d.deposit.currency))))
          ref
      ▷ report_if (is_disallowed rule d.deposit.type) error "DISALLOWED_TYPE" "deposit.type"
          (country
            ++ (" does not permit deposit type "
                ++ (d.deposit.type ++ (" (allowed: " ++ (allowed_types_string rule ++ ")")))))
          ref
      ▷ report_if
          (lt zero rule.max_months
            && lt zero monthly_rent
            && lt zero d.deposit.amount
            && lt (mul max_amount (decimal 1005 3)) d.deposit.amount)
          error "CAP_EXCEEDED" "deposit.amount"
          (country
            ++ (" statutory cap is "
                ++ (format_2g rule.max_months
                    ++ (" months rent — deposit "
                        ++ (format_2f d.deposit.amount
                            ++ (" exceeds max "
                                ++ (format_2f max_amount ++ (" " ++ d.deposit.currency))))))))
          ref
      ▷ report_if (has_unexpected_basis rule d.pledge) warning "UNEXPECTED_STATUTORY_BASIS"
          "pledge.statutory_basis"
          ("statutory_basis "
            ++ (quote (given_basis d.pledge)
                ++ (" is unexpected for "
                    ++ (country
                        ++ (" (expected one of: " ++ (join " / " rule.statutory_bases ++ ")"))))))
          ref
      ▷ report_if
          (rule.interest_required
            && elim d.trusteeship [ none ↦ true | some t ↦ eq t.interest_rate zero ])
          warning "INTEREST_REQUIRED" "trusteeship.interest_rate"
          (country
            ++ " law requires interest to accrue on the deposit for the tenant's benefit; trusteeship.interest_rate is not set")
          ref
      ▷ report_if (d.deposit.type == cash_equivalent && is_none d.trusteeship) warning
          "MISSING_TRUSTEESHIP" "trusteeship"
          "CASH_EQUIVALENT deposits should declare a trusteeship with insolvency_protection_confirmed = true"
          ref
      ▷ report_if (has_unconfirmed_protection d.trusteeship) warning
          "INSOLVENCY_PROTECTION_UNCONFIRMED" "trusteeship.insolvency_protection_confirmed"
          "trusteeship.insolvency_protection_confirmed should be true — BGB § 551 Abs. 3 and equivalent require insolvency-proof separation"
          ref

  unfoldable pub check_jurisdiction : Deposit A → A → Report → Report
  unfolding lookup add
  check_jurisdiction d monthly_rent r =
      let country = d.property.address.country in
      let r' = record r { jurisdiction = country } in
      if country == "" then r' else elim (lookup country jurisdiction_rules) [
        | none ↦
            add info "UNKNOWN_JURISDICTION" "property.address.country"
              ("no statutory rules defined for country "
                ++ (quote country ++ " — schema checks only"))
              "" r'
        | some rule ↦ check_rule d monthly_rent country rule r'
      ]

  -- `now` is the time of the call.
  unfoldable pub validate : Deposit A → A → Time → Report
  validate d monthly_rent now =
      let r : Report =
        record {
          valid = false;
          jurisdiction = "";
          schema_version = d.meta.version;
          findings = [];
          checked_at = format_rfc3339 now;
        }
        ▷ check_required d
        ▷ check_deposit_type d
        ▷ check_jurisdiction d monthly_rent in
      record r { valid = not (has_errors r) }
