-- ===== src/Engine/Findings.antt =====
-- The findings of a run are only added to: what each phase of the engine leaves of those before it.
pub mod Identity
pub mod Streams
pub mod Anchors
use sealr_verify.Common.{
  ◌≡◌, refl, sym, ap, ◌∙◌, Bool, true, false, Option, List, [], ◌∷◌, ◌++◌, append-nil, append_assoc,
  ℕ,
}
use sealr_verify.Common.Text.{Str}
use sealr_verify.Report.{Finding, Severity}
use sealr_verify.Engine.{add_at}
use sealr_verify.Engine.Trust.{add}

-- the findings of before, and more behind them
abbrev pub IsBefore : List Finding → List Finding → Type 0
IsBefore before after = (more : List Finding) × (after ≡ before ++ more)

pub IsBefore-refl : (fs : List Finding) → IsBefore fs fs
IsBefore-refl fs = ([], sym (append-nil fs))

pub IsBefore-trans : (fs gs hs : List Finding) → IsBefore fs gs → IsBefore gs hs → IsBefore fs hs
IsBefore-trans fs gs hs (more, p) (others, q) =
    (more ++ others, q ∙ ap (λ l. l ++ others) p ∙ append_assoc fs more others)

pub add-IsBefore :
    (severity : Severity) (class : Str) (fs : List Finding) → IsBefore fs (add severity class fs)
unfolding add
add-IsBefore severity class fs = (_, refl)

pub add_at-IsBefore :
    (severity : Severity) (class stream : Str) (seq : Option ℕ) (fs : List Finding)
    → IsBefore fs (add_at severity class stream seq fs)
unfolding add_at
add_at-IsBefore severity class stream seq fs = (_, refl)
