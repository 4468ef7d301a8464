-- ===== src/Engine/Maps.antt =====
-- The maps of the engine: what an insertion leaves, and findings that stay.
use sealr_verify.Common.{
  ◌≡◌, refl, ◌⊎◌, inl, inr, Bool, true, Bool-cases, some, List, [], ◌∷◌, ◌++◌,
}
use sealr_verify.Common.Text.{Str, str_eq, str_eq→eq}
use sealr_verify.Report.{Finding, Severity, any_severity}
use sealr_verify.Engine.{str_get, str_insert}

pub str_get-str_insert {ℓ} :
    {A : Type ℓ} (k q : Str) (v : A) (m : List (Str × A)) {w : A}
    → str_get q (str_insert k v m) ≡ some w
    → ((k ≡ q) × (v ≡ w)) ⊎ (str_get q m ≡ some w)
unfolding str_get str_insert
str_get-str_insert k q v [] h = elim (Bool-cases (str_eq k q)) [
  | inl t ↦ let there : some v ≡ some _ = rw t at h in inl (str_eq→eq k q t, cc (there))
  | inr t ↦ absurd (cc (rw t at h))
]
str_get-str_insert k q v (e ∷ m) h = elim (Bool-cases (str_eq e.0 k)) [
  | inl t ↦ elim (Bool-cases (str_eq k q)) [
    | inl u ↦ let there : some v ≡ some _ = rw (t, u) at h in inl (str_eq→eq k q u, cc (there))
    | inr u ↦ let same = str_eq→eq e.0 k t in inr (rw (same, u) (rw (t, u) at h))
  ]
  | inr t ↦ elim (Bool-cases (str_eq e.0 q)) [
    | inl u ↦ inr (rw u (rw (t, u) at h))
    | inr u ↦ elim (str_get-str_insert k q v m (rw (t, u) at h)) [
      | inl new ↦ inl new
      | inr old ↦ inr (rw u old)
    ]
  ]
]

pub any_severity-append :
    (test : Severity → Bool) (fs later : List Finding)
    → any_severity test fs ≡ true
    → any_severity test (fs ++ later) ≡ true
any_severity-append test [] later h = absurd (cc)
any_severity-append test (f ∷ fs) later h = elim (Bool-cases (test f.severity)) [
  | inl t ↦ rw t refl
  | inr t ↦ rw t (any_severity-append test fs later (rw t at h))
]
