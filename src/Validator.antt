-- ===== src/Validator.antt =====
-- The conformance validator: server/internal/validator. The report (report.go), the table of the
-- statutory rules (rules.go) and the checks (validator.go).
pub mod Report
pub mod Rules
pub mod Checks
pub mod Conformance
