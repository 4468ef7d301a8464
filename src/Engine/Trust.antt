-- ===== src/Engine/Trust.antt =====
-- crates/verify/src/engine.rs: the choice of the trusted roots.
pub mod Pinned
use sealr_verify.Common.{ℕ, Bool, Option, none, some, List, [], ◌∷◌, ◌++◌, map, if◌then◌else◌}
use sealr_verify.Common.Int.{ℤ}
use sealr_verify.Common.Text.{Str, codes}
use sealr_verify.Bundle.Types.{TrustedRoot, RootsFile}
use sealr_verify.Bundle.Writer.Documents.{contains}
use sealr_verify.Report.{Finding, Severity, warning, error}

pub record VerifyOptions : Type 0 where
  pub root_pem_override : Option Str
  pub console_key_override : Option Str
  pub now_unix : Option ℤ
  pub expected_high_water : List (Str × ℕ)

-- `Ctx::add`
unfoldable pub add : Severity → Str → List Finding → List Finding
add severity class findings =
    findings ++ record { severity = severity; class = class; stream_id = none; seq = none } ∷ []

-- where the roots come from: the text that is reported of it
pub data RootSource : Type 0 where
  override embedded bundle_pinned no_source : RootSource

-- the roots of a bundle, when there are some
unfoldable pub pinned_roots :
    Option RootsFile → List Finding → List Finding × (List Str × RootSource)
pinned_roots none findings = (add error (codes "no_trust_root") findings, ([], no_source))
pinned_roots (some file) findings = elim file.roots [
  | [] ↦ (add error (codes "no_trust_root") findings, ([], no_source))
  | root ∷ roots ↦ (
    add warning (codes "root_bundle_pinned") findings,
    (map (λ (r : TrustedRoot). r.cert_pem) (root ∷ roots), bundle_pinned),
  )
]

-- `embedded_roots_pem` is the file that the build includes; a text with the words of the second
-- test is not blank, so that the first one adds nothing to it
unfoldable pub select_roots :
    Str → VerifyOptions → Option RootsFile → List Finding → List Finding × (List Str × RootSource)
select_roots embedded_roots_pem opts bundle_roots findings = elim opts.root_pem_override [
  | some pem ↦ (findings, (pem ∷ [], override))
  | none ↦
      if contains (codes "BEGIN CERTIFICATE") embedded_roots_pem
      then (findings, (embedded_roots_pem ∷ [], embedded))
      else pinned_roots bundle_roots findings
]
