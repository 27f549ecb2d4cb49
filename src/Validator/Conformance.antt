-- ===== src/Validator/Conformance.antt =====
-- An independent description of the documents that the validator accepts.
use xmiete.Prelude.{
  ◌≡◌, refl, sym, ◌∙◌, String, Bool, true, false, not, ◌&&◌, ◌||◌, Option, none, some, List, [],
  ◌∷◌, ◌++◌, ◌==◌, any, lookup, arith, Bool-cases, Option-cases, inl, inr, eq_iff,
}
use xmiete.Calendar.{Time}
use xmiete.Amount.{Amount}
use xmiete.Models.{Deposit}
use xmiete.Api.Program.{reply, deposit, decode, reject_if, store}
use xmiete.Api.Deposits.{default_to, create_deposit}
use xmiete.Validator.Report.{Severity, error, warning, Report, is_error, has_errors, report_if, add}
use xmiete.Validator.Rules.{JurisdictionRule, jurisdiction_rules}
use xmiete.Validator.Checks.{
  is_known_type, is_disallowed, check_required, check_deposit_type, check_rule, check_jurisdiction,
  validate,
}

combine :
    (given absent known statutory : Bool)
    → (absent ≡ true → given ≡ false)
    → not (false || not given || not (absent || known) || not statutory)
      ≡ (given && known && statutory)
combine given true known statutory h = rw (h refl) refl
combine true false true statutory h = ground arith
combine true false false statutory h = ground arith
combine false false known statutory h = ground arith

is_given_of : (given known statutory : Bool) → (given && known && statutory) ≡ true → given ≡ true
is_given_of given known statutory h = ground arith

any-snoc :
    {R : Type 0} (p : R → Bool) (xs : List R) (x : R) → any p (xs ++ x ∷ []) ≡ (any p xs || p x)
any-snoc p [] x = ground arith
any-snoc p (y ∷ ys) x = ground (arith, any-snoc p ys x)

has_errors-add :
    (sev : Severity) (code field message rule : String) (r : Report)
    → has_errors (add sev code field message rule r) ≡ (has_errors r || is_error sev)
unfolding has_errors add
has_errors-add sev code field message rule r = any-snoc (λ f. is_error f.severity) r.findings _

has_errors-report_if :
    (test : Bool) (sev : Severity) (code field message rule : String) (r : Report)
    → has_errors (report_if test sev code field message rule r)
      ≡ (has_errors r || (test && is_error sev))
unfolding report_if
has_errors-report_if true sev code field message rule r =
    has_errors-add sev code field message rule r
has_errors-report_if false sev code field message rule r = ground arith

module _ (test : Bool) (code field message rule : String) (r : Report) where
  has_errors-error :
      has_errors (report_if test error code field message rule r) ≡ (has_errors r || test)
  has_errors-error = rw (has_errors-report_if test error code field message rule r) (ground arith)

  has_errors-warning : has_errors (report_if test warning code field message rule r) ≡ has_errors r
  has_errors-warning =
      rw (has_errors-report_if test warning code field message rule r) (ground arith)

module _ {A : Type 0} ⦃F : Amount A⦄ where
  open F use {zero, mul, lt, le, decimal}

  -- The parties, the amount, the currency and the type are given.
  abbrev pub is_given : Deposit A → Bool
  is_given d =
      not (d.tenant.first_name == "")
      && not (d.tenant.last_name == "")
      && not (d.tenant.email == "")
      && not (d.landlord.name == "")
      && not (le d.deposit.amount zero)
      && not (d.deposit.currency == "")
      && not (d.deposit.type == "")

  -- The amount is at most the cap for the rent, with half a percent for rounding.
  abbrev is_within_cap : Deposit A → A → A → Bool
  is_within_cap d monthly_rent max_months =
      not (lt zero max_months && lt zero monthly_rent && lt zero d.deposit.amount)
      || not (lt (mul (mul max_months monthly_rent) (decimal 1005 3)) d.deposit.amount)

  -- The currency, if given, is that of the rule, the type is allowed, and the amount is within the cap.
  abbrev pub obeys : Deposit A → A → JurisdictionRule A → Bool
  obeys d monthly_rent rule =
      (rule.currency == "" || d.deposit.currency == "" || d.deposit.currency == rule.currency)
      && not (is_disallowed rule d.deposit.type)
      && is_within_cap d monthly_rent rule.max_months

  abbrev pub obeys_found : Deposit A → A → Option (JurisdictionRule A) → Bool
  obeys_found d monthly_rent none = true
  obeys_found d monthly_rent (some rule) = obeys d monthly_rent rule

  abbrev pub is_statutory : Deposit A → A → Bool
  is_statutory d monthly_rent =
      obeys_found d monthly_rent (lookup d.property.address.country jurisdiction_rules)

module _ {A : Type 0} ⦃F : Amount A⦄ (quote : String → String) (d : Deposit A) where
  open F use {zero, mul, lt, le, decimal}

  has_errors-check_required :
      (r : Report) → has_errors (check_required quote d r) ≡ (has_errors r || not (is_given d))
  unfolding check_required
  has_errors-check_required r =
      rw
        (
          has_errors-warning, has_errors-warning, has_errors-error, has_errors-error,
          has_errors-error, has_errors-error, has_errors-error,
        )
        (ground arith)

  has_errors-check_deposit_type :
      (r : Report)
      → has_errors (check_deposit_type quote d r)
        ≡ (has_errors r || not (d.deposit.type == "" || is_known_type d.deposit.type))
  unfolding check_deposit_type
  has_errors-check_deposit_type r = elim (Bool-cases (d.deposit.type == "")) [
    | inl absent ↦ ground arith
    | inr given ↦ rw given (rw has_errors-error (ground arith))
  ]

  has_errors-check_rule :
      (monthly_rent : A) (country : String) (rule : JurisdictionRule A) (r : Report)
      → has_errors (check_rule quote d monthly_rent country rule r)
        ≡ (has_errors r || not (obeys d monthly_rent rule))
  unfolding check_rule
  has_errors-check_rule monthly_rent country rule r =
      rw
        (
          has_errors-warning, has_errors-warning, has_errors-warning, has_errors-warning,
          has_errors-error, has_errors-error, has_errors-error,
        )
        (ground arith)

  no_rule_nowhere : (c : String) → c ≡ "" → lookup c (jurisdiction_rules {A = A} ⦃F = F⦄) ≡ none
  unfolding lookup
  no_rule_nowhere c e = rw e refl

  has_errors-check_jurisdiction :
      (monthly_rent : A) (r : Report)
      → has_errors (check_jurisdiction quote d monthly_rent r)
        ≡ (has_errors r || not (is_statutory d monthly_rent))
  unfolding check_jurisdiction has_errors
  has_errors-check_jurisdiction monthly_rent r =
      elim (Bool-cases (d.property.address.country == "")) [
        | inl nowhere ↦ ground (
          arith,
          no_rule_nowhere d.property.address.country
              ((eq_iff d.property.address.country "").0 nowhere),
        )
        | inr given ↦
            elim (Option-cases
              (lookup d.property.address.country (jurisdiction_rules {A = A} ⦃F = F⦄))) [
                | inl unknown ↦
                    rw (given, unknown) (any-snoc (λ f. is_error f.severity) r.findings _)
                | inr (rule, known) ↦
                    rw (given, known)
                      (has_errors-check_rule monthly_rent d.property.address.country rule
                        (record r { jurisdiction = d.property.address.country }))
              ]
      ]

  -- A report is valid exactly for the documents that have all the required fields and a known
  -- type, and that obey the rule for the country of the property, if the code's table has one: its
  -- currency, its cap, and its types where it lists any.
  pub valid_iff :
      (monthly_rent : A) (now : Time)
      → (validate quote d monthly_rent now).valid
        ≡ (is_given d && is_known_type d.deposit.type && is_statutory d monthly_rent)
  unfolding validate has_errors
  valid_iff monthly_rent now =
      rw (has_errors-check_jurisdiction, has_errors-check_deposit_type, has_errors-check_required)
        (combine (is_given d) (d.deposit.type == "") (is_known_type d.deposit.type)
          (is_statutory d monthly_rent) (λ absent. ground arith))

  module _ (given : is_given d ≡ true) where
    named_tenant :
        (d.tenant.first_name == "" || d.tenant.last_name == "" || d.tenant.email == "") ≡ false
    named_tenant = ground arith

    named_landlord : (d.landlord.name == "") ≡ false
    named_landlord = ground arith

    priced : (le d.deposit.amount zero || d.deposit.type == "") ≡ false
    priced = ground arith

    in_currency : (d.deposit.currency == "") ≡ false
    in_currency = ground arith

  -- A document with a valid report passes the checks of `CreateDeposit`: the handler stores it as
  -- it is, except that it gives it a version where it has none.
  pub valid_creates :
      (monthly_rent : A) (now : Time)
      → (validate quote d monthly_rent now).valid ≡ true
      → create_deposit (some d)
        ≡ store
            (record d { meta = record d.meta { version = default_to "2.0.0" d.meta.version } })
            λ created. reply (record { status = 201; body = deposit created })
  unfolding create_deposit decode reject_if
  valid_creates monthly_rent now v =
      let given = is_given_of (is_given d) _ _ (sym (valid_iff monthly_rent now) ∙ v) in
      rw (named_tenant given, named_landlord given, priced given, in_currency given) refl
