-- ===== src/Validator/Report.antt =====
-- server/internal/validator/report.go: the findings and the report that collects them.
use xmiete.Prelude.{String, Bool, true, false, List, [], ◌∷◌, ◌++◌, any, if◌then◌else◌}

pub data Severity : Type 0 where
  error warning info : Severity

pub record Finding : Type 0 where
  pub code : String
  pub severity : Severity
  pub field : String
  pub message : String
  pub rule : String

pub record Report : Type 0 where
  pub valid : Bool
  pub jurisdiction : String
  pub schema_version : String
  pub findings : List Finding
  pub checked_at : String

unfoldable pub add : Severity → String → String → String → String → Report → Report
add severity code field message rule r = record r {
  findings =
      r.findings
      ++ record { code = code; severity = severity; field = field; message = message; rule = rule }
        ∷ [];
}

abbrev pub is_error : Severity → Bool
is_error error = true
is_error _ = false

-- The loop over the findings.
unfoldable pub has_errors : Report → Bool
has_errors r = any (λ f. is_error f.severity) r.findings

-- `if test { r.add(…) }`
unfoldable pub report_if : Bool → Severity → String → String → String → String → Report → Report
unfolding add
report_if test severity code field message rule r =
    if test then add severity code field message rule r else r

-- A statement after another.
infixl 5 ◌▷◌
abbrev pub ◌▷◌ : Report → (Report → Report) → Report
r ▷ f = f r
