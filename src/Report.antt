-- ===== src/Report.antt =====
-- crates/verify/src/report.rs: findings, the result of a run and the exit code. The texts of the
-- messages and the printed form are left out.
pub mod Result
use sealr_verify.Common.{ℕ, ◌||◌, Bool, true, false, Option, List, [], ◌∷◌, if◌then◌else◌}
use sealr_verify.Common.Text.{Str}

pub data VerifyResult : Type 0 where
  pass pass_with_findings fail : VerifyResult

pub data Severity : Type 0 where
  info warning error : Severity

-- `Finding` without its message
pub record Finding : Type 0 where
  pub severity : Severity
  pub class : Str
  pub stream_id : Option Str
  pub seq : Option ℕ

abbrev pub is_error : Severity → Bool
is_error info = false
is_error warning = false
is_error error = true

abbrev pub is_warning : Severity → Bool
is_warning info = false
is_warning warning = true
is_warning error = false

-- `any` over the findings
abbrev pub any_severity : (Severity → Bool) → List Finding → Bool
any_severity test [] = false
any_severity test (f ∷ fs) = test f.severity || any_severity test fs

unfoldable pub compute_result : List Finding → VerifyResult
compute_result findings =
    if any_severity is_error findings
    then fail
    else if any_severity is_warning findings
    then pass_with_findings
    else pass

unfoldable pub exit_code : VerifyResult → ℕ
exit_code pass = 0
exit_code pass_with_findings = 10
exit_code fail = 11
