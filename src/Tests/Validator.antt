-- ===== src/Tests/Validator.antt =====
-- The validator on a deposit of three months' rent in Germany.
use xmiete.Prelude.{◌≡◌, refl, String, true, ◌&&◌}
use xmiete.Api.Program.{reply, deposit, store}
use xmiete.Api.Deposits.{create_deposit}
use xmiete.Validator.Report.{has_errors, report_if}
use xmiete.Validator.Checks.{
  is_known_type, validate, check_required, check_deposit_type, check_rule, check_jurisdiction,
}
use xmiete.Validator.Conformance.{is_given, is_statutory, valid_iff, valid_creates}
use xmiete.Prelude.{ℕ, some}
use xmiete.Models.{Deposit}
use xmiete.Tests.Data.{thousandths, posted}

-- `%q` where nothing needs an escape.
abbrev quote : String → String
quote s = s

valid_iff_example :
    (validate quote posted 500000 0).valid
    ≡ (is_given posted && is_known_type "CASH_EQUIVALENT" && is_statutory posted 500000)
valid_iff_example = valid_iff quote posted 500000 0

valid : (validate quote posted 500000 0).valid ≡ true
unfolding validate check_required check_deposit_type check_jurisdiction check_rule report_if
    has_errors
valid = refl

valid_creates_example :
    create_deposit (some posted)
    ≡ store posted (λ created. reply (record { status = 201; body = deposit created }))
valid_creates_example = valid_creates quote posted 500000 0 valid

-- README.md lists blocked savings alone for Switzerland; the table of the code lists no types.
abbrev surety_in_ch : Deposit ℕ
surety_in_ch = record posted {
  deposit = record posted.deposit { type = "SURETY"; currency = "CHF" };
  property = record posted.property { address = record posted.property.address { country = "CH" } };
}

surety_passes : (validate quote surety_in_ch 500000 0).valid ≡ true
unfolding validate check_required check_deposit_type check_jurisdiction check_rule report_if
    has_errors
surety_passes = refl
