-- ===== src/Revocation/Boundary.antt =====
-- What `is_revoked_at` decides, and that a list made by the console verifies.
use sealr_verify.Common.{
  ℕ, zero, suc, ◌≤◌, ◌≡◌, ◌↔◌, refl, ◌&&◌, Bool, true, false, Bool-cases, inl, inr, Option, none,
  some, List, [], ◌∷◌, leb→le, le→leb, get_elem?, sym, subst,
}
use sealr_verify.Common.Text.{Str, str_eq, str_eq_iff}
use sealr_verify.Common.Result.{ok, >>=-eq-ok}
use sealr_verify.Deps.{Digests, Ed25519, Chrono}
use sealr_verify.Record.{parse_wall}
use sealr_verify.Keys.{SigningKey, verifying_key, sign_jcs}
use sealr_verify.Keys.RoundTrip.{verify_jcs-sign_jcs}
use sealr_verify.Revocation.{
  RevocationEntry, RevocationList, SignedRevocationList, list_value, reached, create, verify,
  entry_applies, any_applies, is_revoked_at,
}

module _ ⦃e : Ed25519⦄ ⦃d : Digests⦄ where
  -- A revocation list that `create` signs verifies under the public half of the console's key.
  pub verify-create :
      (list : RevocationList) (console_key_id : Str) (k : SigningKey) (s : SignedRevocationList)
      → create list console_key_id k ≡ ok s
      → verify s (verifying_key k) ≡ ok tt
  unfolding create verify
  verify-create list console_key_id k s h =
      let (sig, signed, h2) = >>=-eq-ok (sign_jcs k (list_value list)) _ h in
      let same : record { list = list; console_key_id = console_key_id; signature = sig } ≡ s =
        cc in
      rw (← same) (verify_jcs-sign_jcs k (list_value list) sig signed)

-- an entry for the certificate whose time can be read and has come
abbrev pub Applies : ⦃c : Chrono⦄ → Str → ℕ → RevocationEntry → Type 0
Applies fingerprint at r =
    (r.cert_fingerprint ≡ fingerprint)
    × ((eff : ℕ) × (parse_wall r.effective_at ≡ some eff) × (eff ≤ at))

reached_iff :
    (at : ℕ) (w : Option ℕ) → (reached at w ≡ true) ↔ ((eff : ℕ) × (w ≡ some eff) × (eff ≤ at))
unfolding reached
reached_iff at none = (λ h. absurd (cc), λ h. absurd (cc (h.1)))
reached_iff at (some eff) = (
  λ h. (eff, refl, leb→le eff at h),
  λ h. let same : eff ≡ h.0 = cc (h.1) in rw same (le→leb h.0 at h.2),
)

both_iff {ℓ} :
    {P Q : Type ℓ} (a b : Bool) → (a ≡ true) ↔ P → (b ≡ true) ↔ Q → ((a && b) ≡ true) ↔ (P × Q)
both_iff true true p q = (λ h. (p.0 refl, q.0 refl), λ h. refl)
both_iff true false p q = (λ h. absurd (cc), λ h. absurd (cc (q.1 h.1)))
both_iff false b p q = (λ h. absurd (cc), λ h. absurd (cc (p.1 h.0)))

module _ ⦃c : Chrono⦄ where
  entry_applies_iff :
      (fingerprint : Str) (at : ℕ) (r : RevocationEntry)
      → (entry_applies fingerprint at r ≡ true) ↔ Applies fingerprint at r
  unfolding entry_applies
  entry_applies_iff fingerprint at r =
      both_iff (str_eq r.cert_fingerprint fingerprint) (reached at (parse_wall r.effective_at))
        (str_eq_iff r.cert_fingerprint fingerprint) (reached_iff at (parse_wall r.effective_at))

  -- an entry of the list that applies is behind one that does not
  later :
      {fingerprint : Str} {at : ℕ} (r : RevocationEntry) (rs : List RevocationEntry)
      → entry_applies fingerprint at r ≡ false
      → (i : ℕ) × (x : RevocationEntry) × (get_elem? (r ∷ rs) i ≡ some x) × Applies fingerprint at x
      → (i : ℕ) × (x : RevocationEntry) × (get_elem? rs i ≡ some x) × Applies fingerprint at x
  later {fingerprint} {at} r rs n (zero, x, found, a) =
      let same : r ≡ x = cc in
      absurd (
        cc
          (n, (entry_applies_iff fingerprint at r).1 (subst (Applies fingerprint at) (sym same) a)))
  later r rs n (suc i, x, found, a) = (i, x, found, a)

  any_applies_iff :
      (fingerprint : Str) (at : ℕ) (l : List RevocationEntry)
      → (any_applies fingerprint at l ≡ true)
        ↔ ((i : ℕ) × (r : RevocationEntry) × (get_elem? l i ≡ some r) × Applies fingerprint at r)
  unfolding any_applies
  any_applies_iff fingerprint at [] = (λ h. absurd (cc), λ h. absurd (cc (h.2)))
  any_applies_iff fingerprint at (r ∷ rs) = elim (Bool-cases (entry_applies fingerprint at r)) [
    | inl y ↦ (λ h. (0, r, refl, (entry_applies_iff fingerprint at r).0 y), λ h. rw y)
    | inr n ↦ (
      λ h.
          let (i, x, found, a) = (any_applies_iff fingerprint at rs).0 (rw n at h) in
          (suc i, x, found, a),
      λ h. rw n ((any_applies_iff fingerprint at rs).1 (later r rs n h)),
    )
  ]

  -- A certificate counts as revoked at a time exactly if the list has an entry for its fingerprint
  -- whose time can be read and is not later. An entry whose time cannot be read revokes nothing.
  pub is_revoked_at_iff :
      (s : SignedRevocationList) (fingerprint : Str) (at : ℕ)
      → (is_revoked_at s fingerprint at ≡ true) ↔ (
          (i : ℕ) × (r : RevocationEntry) × (get_elem? s.list.revocations i ≡ some r)
          × Applies fingerprint at r)
  unfolding is_revoked_at
  is_revoked_at_iff s fingerprint at = any_applies_iff fingerprint at s.list.revocations
