-- ===== src/Certs.antt =====
-- crates/evidence/src/certs.rs: the offline validation of a chain of certificates.
pub mod Chains
pub mod Accepted
use sealr_verify.Common.{
  ℕ, zero, suc, Bool, true, false, Option, none, some, List, [], ◌∷◌, ◌++◌, if◌then◌else◌,
}
use sealr_verify.Common.Int.{ℤ}
use sealr_verify.Common.Text.{Bytes, Str, codes, str_eq}
use sealr_verify.Common.Result.{
  Result, ok, err, EvidenceError, certificate, ◌>>=◌, or_error, require,
}
use sealr_verify.Common.Text.{utf8}
use sealr_verify.Deps.{Digests, Ed25519}
use sealr_verify.Deps.X509.{X509}
use sealr_verify.Hash.{blake3_hex}
use sealr_verify.Keys.{VerifyingKey, from_bytes}

abbrev pub root_validity_days : ℤ
root_validity_days = ℤ.pos 3650

abbrev pub tenant_ca_validity_days : ℤ
tenant_ca_validity_days = ℤ.pos 730

abbrev pub recorder_cert_validity_days : ℤ
recorder_cert_validity_days = ℤ.pos 90

pub record ValidatedCert : Type 0 where
  pub subject_common_name : Str
  pub public_key : VerifyingKey
  pub fingerprint : Str
  pub not_before_unix : ℤ
  pub not_after_unix : ℤ

-- the loop over the blocks of a PEM text
unfoldable pub certificate_blocks : List (Option (Str × Bytes)) → Result EvidenceError (List Bytes)
certificate_blocks [] = ok []
certificate_blocks (none ∷ items) = err certificate
certificate_blocks (some pem ∷ items) = do
  ders ← certificate_blocks items
  ok (if str_eq pem.0 (codes "CERTIFICATE") then pem.1 ∷ ders else ders)

-- `is_empty` is an error, so that a result has a first certificate
abbrev pub not_empty : List Bytes → Result EvidenceError (Bytes × List Bytes)
not_empty [] = err certificate
not_empty (der ∷ ders) = ok (der, ders)

module _ ⦃x : X509⦄ where
  -- the first certificate of a PEM text, and the others
  unfoldable pub parse_pem_chain : Str → Result EvidenceError (Bytes × List Bytes)
  parse_pem_chain pem = do ders ← certificate_blocks (x.iter_from_buffer (utf8 pem)); not_empty ders

  unfoldable pub cert_fingerprint : ⦃d : Digests⦄ → Str → Result EvidenceError Str
  cert_fingerprint pem = do ders ← parse_pem_chain pem; ok (blake3_hex ders.0)

  unfoldable pub extract_ed25519_key :
      ⦃e : Ed25519⦄ → x.Certificate → Result EvidenceError VerifyingKey
  extract_ed25519_key cert = from_bytes (x.subject_public_key (x.public_key cert))

  -- the first of the common names, where it is a text
  abbrev pub first_name : List (Option Str) → Str
  first_name [] = []
  first_name (none ∷ names) = []
  first_name (some name ∷ names) = name

  unfoldable pub common_name : x.Certificate → Str
  common_name cert = first_name (x.common_names cert)

  unfoldable pub check_validity : x.Certificate → x.Time → Result EvidenceError (Unit {0})
  check_validity cert at = require certificate (x.is_valid_at cert at)

  abbrev pub any_ca : List (Option Bool) → Bool
  any_ca [] = false
  any_ca (none ∷ extensions) = any_ca extensions
  any_ca (some ca ∷ extensions) = if ca then true else any_ca extensions

  unfoldable pub is_ca : x.Certificate → Bool
  is_ca cert = any_ca (x.extensions cert)

  unfoldable pub verify_signed_by : x.Certificate → x.Certificate → Result EvidenceError (Unit {0})
  verify_signed_by cert issuer = require certificate (x.verify_signature cert (x.public_key issuer))

  -- the certificates of all the intermediates
  unfoldable pub pool_of : List Str → Result EvidenceError (List Bytes)
  pool_of [] = ok []
  pool_of (pem ∷ pems) = do
    ders ← parse_pem_chain pem
    rest ← pool_of pems
    ok (ders.0 ∷ (ders.1 ++ rest))

  -- what is checked of the certificate in the pool that has the name of the issuer
  unfoldable pub check_issuer :
      x.Time → x.Certificate → x.Certificate → Result EvidenceError (Unit {0})
  check_issuer at current cand = do
    valid ← check_validity cand at
    ca ← require certificate (is_ca cand)
    verify_signed_by current cand

  -- the search for the issuer in the pool
  unfoldable pub find_issuer :
      x.Time → x.Certificate → List Bytes → Result EvidenceError (Option Bytes)
  find_issuer at current [] = ok none
  find_issuer at current (cand_der ∷ pool) =
      let rest = find_issuer at current pool in
      (do
        cand ← or_error certificate (x.from_der cand_der)
        (if x.same_name (x.subject cand) (x.issuer current)
            then (do checked ← check_issuer at current cand; ok (some cand_der))
            else rest))

  -- the checks of the last hop
  unfoldable pub check_last : x.Certificate → x.Certificate → Result EvidenceError (Unit {0})
  check_last root current = do
    signed ← verify_signed_by current root
    require certificate (is_ca root)

  -- The loop: the walk up from a certificate to the root, with at most `hops` more certificates.
  unfoldable pub walk_up :
      x.Time → x.Certificate → List Bytes → ℕ → Bytes → Result EvidenceError (Unit {0})
  walk_up at root pool zero current_der = err certificate
  walk_up at root pool (suc hops) current_der = do
    current ← or_error certificate (x.from_der current_der)
    (if x.same_name (x.issuer current) (x.subject root) then check_last root current else (do
      found ← find_issuer at current pool
      der ← or_error certificate found
      walk_up at root pool hops der))

  -- a ninth turn of the loop is an error
  abbrev pub max_hops : ℕ
  max_hops = 8

  unfoldable pub validate_chain :
      ⦃d : Digests⦄ ⦃e : Ed25519⦄ → Str → List Str → Str → ℤ → Result EvidenceError ValidatedCert
  validate_chain leaf_pem intermediates_pem root_pem at_unix = do
    leaf_ders ← parse_pem_chain leaf_pem
    root_ders ← parse_pem_chain root_pem
    pool ← pool_of intermediates_pem
    leaf ← or_error certificate (x.from_der leaf_ders.0)
    root ← or_error certificate (x.from_der root_ders.0)
    at ← or_error certificate (x.from_timestamp at_unix)
    leaf_valid ← check_validity leaf at
    root_valid ← check_validity root at
    walked ← walk_up at root pool max_hops leaf_ders.0
    key ← extract_ed25519_key leaf
    ok (record {
      subject_common_name = common_name leaf;
      public_key = key;
      fingerprint = blake3_hex leaf_ders.0;
      not_before_unix = x.not_before leaf;
      not_after_unix = x.not_after leaf;
    })
