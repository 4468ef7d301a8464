-- ===== src/Engine/Trust/Pinned.antt =====
-- What the choice of the roots of the bundle does to a result.
use sealr_verify.Common.{
  ◌≡◌, ◌≢◌, refl, Bool, true, false, Bool-cases, inl, inr, Option, none, some, List, [], ◌∷◌, ◌++◌,
}
use sealr_verify.Common.Text.{Str, codes}
use sealr_verify.Bundle.Types.{TrustedRoot, RootsFile}
use sealr_verify.Bundle.Writer.Documents.{contains}
use sealr_verify.Report.{
  Finding, Severity, pass, is_error, is_warning, any_severity, compute_result,
}
use sealr_verify.Engine.Trust.{VerifyOptions, add, pinned_roots, select_roots}

pub any_severity-middle :
    (test : Severity → Bool) (before after : List Finding) (f : Finding)
    → test f.severity ≡ true
    → any_severity test ((before ++ f ∷ []) ++ after) ≡ true
any_severity-middle test [] after f h = rw h
any_severity-middle test (x ∷ before) after f h = elim (Bool-cases (test x.severity)) [
  | inl e ↦ rw e
  | inr e ↦ rw e (any_severity-middle test before after f h)
]

-- what an error or a warning among the findings makes of the result
pub error-not_pass :
    (fs : List Finding) → any_severity is_error fs ≡ true → compute_result fs ≢ pass
unfolding compute_result
error-not_pass fs e h = cc (rw e at h)

pub warning-not_pass :
    (fs : List Finding) → any_severity is_warning fs ≡ true → compute_result fs ≢ pass
unfolding compute_result
warning-not_pass fs e h = elim (Bool-cases (any_severity is_error fs)) [
  | inl b ↦ cc (rw b at h)
  | inr b ↦ cc (rw (b, e) at h)
]

pinned_roots-not_pass :
    (roots : Option RootsFile) (findings later : List Finding)
    → compute_result ((pinned_roots roots findings).0 ++ later) ≢ pass
unfolding pinned_roots add
pinned_roots-not_pass none findings later =
    error-not_pass _ (any_severity-middle is_error findings later _ refl)
pinned_roots-not_pass (some file) findings later = split file.roots
  where
    split :
        (l : List TrustedRoot)
        → compute_result (
            (pinned_roots
              (some (record { roots = l; console_keys = file.console_keys }))
              findings).0
            ++ later)
          ≢ pass
    split [] = error-not_pass _ (any_severity-middle is_error findings later _ refl)
    split (root ∷ roots) = warning-not_pass _ (any_severity-middle is_warning findings later _ refl)

-- Without a root from outside the bundle, neither given nor embedded, the findings that
-- `select_roots` leaves do not give the result `Pass`, whatever findings are added behind them.
pub select_roots-not_pass :
    (embedded : Str) (opts : VerifyOptions) (roots : Option RootsFile)
    (findings later : List Finding)
    → opts.root_pem_override ≡ none
    → contains (codes "BEGIN CERTIFICATE") embedded ≡ false
    → compute_result ((select_roots embedded opts roots findings).0 ++ later) ≢ pass
unfolding select_roots
select_roots-not_pass embedded opts roots findings later o e =
    rw (o, e) (pinned_roots-not_pass roots findings later)
