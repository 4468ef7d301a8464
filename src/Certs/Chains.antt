-- ===== src/Certs/Chains.antt =====
-- The chains that the walk of `validate_chain` accepts, without its loop.
use sealr_verify.Common.{
  ℕ, zero, suc, ◌≤◌, ◌≡◌, refl, true, false, Bool-cases, inl, inr, some, List, [], ◌∷◌, ◌++◌, All,
  arith,
}
use sealr_verify.Common.Text.{Bytes}
use sealr_verify.Common.Result.{
  certificate, or_error, require, or_error-ok, require-ok, ok, >>=-eq-ok,
}
use sealr_verify.Deps.X509.{X509}
use sealr_verify.Certs.{
  check_validity, is_ca, verify_signed_by, check_issuer, find_issuer, check_last, walk_up,
}

module _ ⦃x : X509⦄ where
  -- a certificate signed by a valid one that may issue certificates and has the issuer's name
  pub record IsIssuedBy (at : x.Time) (current cand : x.Certificate) : Type 0 where
    pub named : x.same_name (x.subject cand) (x.issuer current) ≡ true
    pub valid : x.is_valid_at cand at ≡ true
    pub ca : is_ca cand ≡ true
    pub signed : x.verify_signature current (x.public_key cand) ≡ true

  -- a certificate of the pool that can be read and does not have the issuer's name
  abbrev pub IsPassedOver : x.Certificate → Bytes → Type 0
  IsPassedOver current der =
      (cand : x.Certificate) × (x.from_der der ≡ some cand)
      × (x.same_name (x.subject cand) (x.issuer current) ≡ false)

  -- the first certificate of the pool with the issuer's name, which issued this one
  pub record IsFirst (at : x.Time) (pool : List Bytes) (current cand : x.Certificate) (der : Bytes)
      : Type 0 where
    pub before : List Bytes
    pub after : List Bytes
    pub place : pool ≡ before ++ der ∷ after
    pub passed : All (IsPassedOver current) before
    pub read : x.from_der der ≡ some cand
    pub issued : IsIssuedBy at current cand

  -- a chain of so many certificates below the root
  pub data Chain (at : x.Time) (root : x.Certificate) (pool : List Bytes)
      : ℕ → x.Certificate → Type 0 where
    under_root :
        {current : x.Certificate}
        → x.same_name (x.issuer current) (x.subject root) ≡ true
        → x.verify_signature current (x.public_key root) ≡ true
        → is_ca root ≡ true
        → Chain at root pool 1 current
    under :
        {n : ℕ} {current cand : x.Certificate} (der : Bytes)
        → x.same_name (x.issuer current) (x.subject root) ≡ false
        → IsFirst at pool current cand der
        → Chain at root pool n cand
        → Chain at root pool (suc n) current

  check_issuer_sound :
      (at : x.Time) (current cand : x.Certificate) {u : Unit {0}}
      → x.same_name (x.subject cand) (x.issuer current) ≡ true
      → check_issuer at current cand ≡ ok u
      → IsIssuedBy at current cand
  unfolding check_issuer check_validity verify_signed_by
  check_issuer_sound at current cand named h =
      let (a, valid, g) = >>=-eq-ok (check_validity cand at) _ h in
      let (b, ca, signed) = >>=-eq-ok (require certificate (is_ca cand)) _ g in
      record {
        named = named;
        valid = require-ok _ _ valid;
        ca = require-ok _ _ ca;
        signed = require-ok _ _ signed;
      }

  check_issuer_complete :
      (at : x.Time) (current cand : x.Certificate)
      → IsIssuedBy at current cand
      → check_issuer at current cand ≡ ok tt
  unfolding check_issuer check_validity verify_signed_by
  check_issuer_complete at current cand i = rw (i.valid, i.ca, i.signed) refl

  find_issuer_sound :
      (at : x.Time) (current : x.Certificate) (pool : List Bytes) (der : Bytes)
      → find_issuer at current pool ≡ ok (some der)
      → (cand : x.Certificate) × IsFirst at pool current cand der
  unfolding find_issuer
  find_issuer_sound at current [] der h = absurd (cc)
  find_issuer_sound at current (cand_der ∷ pool) der h =
      let (cand, parsed, g) = >>=-eq-ok (or_error certificate (x.from_der cand_der)) _ h in
      let read = or_error-ok _ (x.from_der cand_der) parsed in
      elim (Bool-cases (x.same_name (x.subject cand) (x.issuer current))) [
        | inl named ↦
            let (u, checked, same) = >>=-eq-ok (check_issuer at current cand) _ (rw named at g) in
            let here : cand_der ≡ der = cc in
            (
              cand,
              record {
                before = [];
                after = pool;
                place = rw here refl;
                passed = tt;
                read = rw (← here) read;
                issued = check_issuer_sound at current cand named checked;
              },
            )
        | inr other ↦
            let (found, first) = find_issuer_sound at current pool der (rw other at g) in
            (
              found,
              record {
                before = cand_der ∷ first.before;
                after = first.after;
                place = rw first.place refl;
                passed = ((cand, read, other), first.passed);
                read = first.read;
                issued = first.issued;
              },
            )
      ]

  find_issuer_complete :
      (at : x.Time) (current cand : x.Certificate) (der : Bytes) (before after : List Bytes)
      → All (IsPassedOver current) before
      → x.from_der der ≡ some cand
      → IsIssuedBy at current cand
      → find_issuer at current (before ++ der ∷ after) ≡ ok (some der)
  unfolding find_issuer
  find_issuer_complete at current cand der [] after p read i =
      rw (read, i.named, check_issuer_complete at current cand i) refl
  find_issuer_complete at current cand der (b ∷ before) after p read i =
      rw (p.0.1, p.0.2) (find_issuer_complete at current cand der before after p.1 read i)

  check_root_sound :
      (root current : x.Certificate) {u : Unit {0}}
      → check_last root current ≡ ok u
      → (x.verify_signature current (x.public_key root) ≡ true) × (is_ca root ≡ true)
  unfolding check_last verify_signed_by
  check_root_sound root current h =
      let (a, signed, ca) = >>=-eq-ok (verify_signed_by current root) _ h in
      (require-ok _ _ signed, require-ok _ _ ca)

  pub walk_up_sound :
      (at : x.Time) (root : x.Certificate) (pool : List Bytes) (hops : ℕ) (der : Bytes)
      {u : Unit {0}}
      → walk_up at root pool hops der ≡ ok u
      → (n : ℕ) × (current : x.Certificate) × (n ≤ hops)
        × (x.from_der der ≡ some current)
        × Chain at root pool n current
  unfolding walk_up
  walk_up_sound at root pool zero der h = absurd (cc)
  walk_up_sound at root pool (suc hops) der h =
      let (current, parsed, g) = >>=-eq-ok (or_error certificate (x.from_der der)) _ h in
      let read = or_error-ok _ (x.from_der der) parsed in
      elim (Bool-cases (x.same_name (x.issuer current) (x.subject root))) [
        | inl named ↦
            let (signed, ca) = check_root_sound root current (rw named at g) in
            (1, current, omega arith, read, under_root named signed ca)
        | inr other ↦
            let (found, search, more) = >>=-eq-ok (find_issuer at current pool) _ (rw other at g) in
            let (next, some_found, walked) = >>=-eq-ok (or_error certificate found) _ more in
            let is_some : found ≡ some next = or_error-ok _ found some_found in
            let (cand, first) = find_issuer_sound at current pool next (rw is_some at search) in
            let (n, cand', bound, read', chain) = walk_up_sound at root pool hops next walked in
            let same : cand' ≡ cand = cc (first.read, read') in
            (suc n, current, omega arith, read, under next other first (rw same at chain))
      ]

  pub walk_up_complete :
      (at : x.Time) (root : x.Certificate) (pool : List Bytes) (hops n : ℕ) (der : Bytes)
      (current : x.Certificate)
      → x.from_der der ≡ some current
      → n ≤ hops
      → Chain at root pool n current
      → walk_up at root pool hops der ≡ ok tt
  unfolding walk_up check_last verify_signed_by
  walk_up_complete at root pool zero _ der current read bound (under_root a b c) =
      absurd (omega arith)
  walk_up_complete at root pool zero _ der current read bound (under a b c d) = absurd (omega arith)
  walk_up_complete at root pool (suc hops) _ der current read bound (under_root named signed ca) =
      rw (read, named, signed, ca) refl
  walk_up_complete at root pool (suc hops) _ der current read bound
        (under {n = n} {cand = cand} next other first chain) =
      rw
        (
          read,
          other,
          first.place,
          find_issuer_complete at current cand next first.before first.after first.passed first.read
              first.issued,
        )
        (walk_up_complete at root pool hops n next cand first.read (omega arith) chain)
