-- ===== src/Report/Result.antt =====
-- What the exit code says of the findings.
use sealr_verify.Common.{
  ℕ, ◌≡◌, ◌≤◌, ◌↔◌, refl, ap, ◌∙◌, if◌then◌else◌, ◌||◌, Bool, true, false, Bool-cases, inl, inr,
  List, [], ◌∷◌, ◌++◌, All, arith, get_elem?, zero, suc, some,
}
use sealr_verify.Report.{
  pass, pass_with_findings, fail, Severity, info, warning, error, Finding, is_error, is_warning,
  any_severity, compute_result, exit_code,
}

or_assoc : (a b c e : Bool) → e ≡ (b || c) → (a || e) ≡ ((a || b) || c)
or_assoc true b c e h = refl
or_assoc false b c e h = h

pub any_severity-append :
    (test : Severity → Bool) (xs ys : List Finding)
    → any_severity test (xs ++ ys) ≡ (any_severity test xs || any_severity test ys)
any_severity-append test [] ys = refl
any_severity-append test (x ∷ xs) ys =
    or_assoc (test x.severity) _ _ _ (any_severity-append test xs ys)

worse :
    (e e' w w' : Bool)
    → exit_code (if e then fail else if w then pass_with_findings else pass)
      ≤ exit_code (if e || e' then fail else if w || w' then pass_with_findings else pass)
unfolding exit_code
worse true e' w w' = omega arith
worse false true true w' = omega arith
worse false true false w' = omega arith
worse false false true w' = omega arith
worse false false false true = omega arith
worse false false false false = omega arith

-- More findings never make a run look better: the exit code only grows.
pub exit_code-append :
    (xs ys : List Finding) → exit_code (compute_result xs) ≤ exit_code (compute_result (xs ++ ys))
unfolding compute_result exit_code
exit_code-append xs ys =
    rw (any_severity-append is_error xs ys, any_severity-append is_warning xs ys)
      (worse (any_severity is_error xs) (any_severity is_error ys) (any_severity is_warning xs)
        (any_severity is_warning ys))

pub or_false : (a b : Bool) → (a || b) ≡ false → (a ≡ false) × (b ≡ false)
or_false true b h = cc
or_false false b h = (refl, h)

neither : (s : Severity) → is_error s ≡ false → is_warning s ≡ false → s ≡ info
neither info e w = refl
neither warning e w = cc
neither error e w = cc

infos_of_no_severity :
    (fs : List Finding)
    → any_severity is_error fs ≡ false
    → any_severity is_warning fs ≡ false
    → All (λ f. f.severity ≡ info) fs
infos_of_no_severity [] e w = tt
infos_of_no_severity (f ∷ fs) e w =
    let (e1, e2) = or_false (is_error f.severity) _ e in
    let (w1, w2) = or_false (is_warning f.severity) _ w in
    (neither f.severity e1 w1, infos_of_no_severity fs e2 w2)

no_severity_of_infos :
    (fs : List Finding)
    → All (λ f. f.severity ≡ info) fs
    → (any_severity is_error fs ≡ false) × (any_severity is_warning fs ≡ false)
no_severity_of_infos [] h = (refl, refl)
no_severity_of_infos (f ∷ fs) h =
    let (e, w) = no_severity_of_infos fs h.1 in rw (h.0, e, w) (refl, refl)

-- The exit code is 0 exactly if every finding is for information only.
pub exit_code_zero_iff :
    (fs : List Finding) → (exit_code (compute_result fs) ≡ 0) ↔ All (λ f. f.severity ≡ info) fs
unfolding compute_result exit_code
exit_code_zero_iff fs = elim (Bool-cases (any_severity is_error fs)) [
  | inl e ↦
      (λ h. absurd (omega (arith, rw e at h)), λ h. absurd (cc (e, (no_severity_of_infos fs h).0)))
  | inr e ↦ elim (Bool-cases (any_severity is_warning fs)) [
    | inl w ↦ (
      λ h. absurd (omega (arith, rw (e, w) at h)),
      λ h. absurd (cc (w, (no_severity_of_infos fs h).1)),
    )
    | inr w ↦ (λ h. infos_of_no_severity fs e w, λ h. rw (e, w) refl)
  ]
]

is_error→eq : (s : Severity) → is_error s ≡ true → s ≡ error
is_error→eq info h = cc
is_error→eq warning h = cc
is_error→eq error h = refl

or_true : (a : Bool) → (a || true) ≡ true
or_true true = refl
or_true false = refl

not_eleven : (w : Bool) → exit_code (if w then pass_with_findings else pass) ≡ 11 → ⊥
unfolding exit_code
not_eleven true h = omega arith
not_eleven false h = omega arith

an_error :
    (fs : List Finding)
    → any_severity is_error fs ≡ true
    → (i : ℕ) × (f : Finding) × (get_elem? fs i ≡ some f) × (f.severity ≡ error)
an_error [] h = cc
an_error (f ∷ fs) h = elim (Bool-cases (is_error f.severity)) [
  | inl e ↦ (0, f, refl, is_error→eq f.severity e)
  | inr e ↦ let (i, g, at, is) = an_error fs (rw e at h) in (suc i, g, at, is)
]

of_error :
    (fs : List Finding) (i : ℕ) (f : Finding)
    → get_elem? fs i ≡ some f
    → f.severity ≡ error
    → any_severity is_error fs ≡ true
of_error [] i f at e = absurd (cc)
of_error (g ∷ fs) zero f at e =
    let same : g ≡ f = cc in
    let is : is_error g.severity ≡ true =
      ap (λ (x : Finding). is_error x.severity) same ∙ ap is_error e in
    rw is
of_error (g ∷ fs) (suc i) f at e = rw (of_error fs i f at e) (or_true (is_error g.severity))

-- The exit code is 11 exactly if one of the findings is an error.
pub exit_code_fail_iff :
    (fs : List Finding)
    → (exit_code (compute_result fs) ≡ 11)
      ↔ ((i : ℕ) × (f : Finding) × (get_elem? fs i ≡ some f) × (f.severity ≡ error))
unfolding compute_result exit_code
exit_code_fail_iff fs = elim (Bool-cases (any_severity is_error fs)) [
  | inl e ↦ (λ h. an_error fs e, λ h. rw e refl)
  | inr e ↦ (
    λ h. absurd (not_eleven (any_severity is_warning fs) (rw e at h)),
    λ h. absurd (cc (e, of_error fs h.0 h.1 h.2 h.3)),
  )
]
