-- ===== src/Engine/Identity.antt =====
-- crates/verify/src/engine.rs: the certificates and the console keys of a bundle.
pub mod Certificates
pub mod ConsoleKeys
use sealr_verify.Common.{
  ℕ, Bool, true, false, ◌||◌, Option, none, some, List, [], ◌∷◌, ◌++◌, map, if◌then◌else◌,
}
use sealr_verify.Common.Int.{ℤ}
use sealr_verify.Common.Text.{Bytes, Str, codes, str_eq}
use sealr_verify.Common.Result.{Result, ok, err, EvidenceError}
use sealr_verify.Deps.{Digests, Ed25519, KeyPems}
use sealr_verify.Deps.X509.{X509}
use sealr_verify.Keys.{VerifyingKey, verify_jcs}
use sealr_verify.Keys.Pem.{from_spki_pem}
use sealr_verify.Certs.{ValidatedCert, parse_pem_chain, extract_ed25519_key, validate_chain}
use sealr_verify.Bundle.Types.{RootsFile, AttestedConsoleKey, ConsoleKeyStatement, statement_value}
use sealr_verify.Report.{Finding, Severity, warning, error}
use sealr_verify.Engine.{str_insert}
use sealr_verify.Engine.Trust.{VerifyOptions, add}
use sealr_verify.Engine.Base64.{der_to_pem}

-- a `HashMap` from fingerprints
abbrev pub CertMap : Type 0
CertMap = List (Str × ValidatedCert)

-- the console's keys by their identifiers
abbrev pub KeyMap : Type 0
KeyMap = List (Str × VerifyingKey)

-- `join("\n")`
unfoldable pub join_lines : List Str → Str
join_lines [] = []
join_lines (p ∷ []) = p
join_lines (p ∷ q ∷ ps) = p ++ (codes "\n" ++ join_lines (q ∷ ps))

-- `filter(|p| *p != pem)`
unfoldable pub others : Str → List Str → List Str
others pem [] = []
others pem (p ∷ ps) = if str_eq p pem then others pem ps else p ∷ others pem ps

-- what a certificate adds
unfoldable pub add_cert :
    Result EvidenceError ValidatedCert → List Finding × CertMap → List Finding × CertMap
add_cert (ok validated) s = (s.0, str_insert validated.fingerprint validated s.1)
add_cert (err problem) s = (add warning (codes "cert_unvalidated") s.0, s.1)

module _ ⦃x : X509⦄ ⦃d : Digests⦄ ⦃e : Ed25519⦄ where
  -- the loop over the certificates of the bundle
  unfoldable pub add_certs :
      List Str → Str → ℤ → List Str → List Finding × CertMap → List Finding × CertMap
  add_certs all root_pem now_unix [] s = s
  add_certs all root_pem now_unix (pem ∷ pems) s =
      add_certs all root_pem now_unix pems
        (add_cert (validate_chain pem (others pem all) root_pem now_unix) s)

  -- with at least one root
  unfoldable pub build_from :
      Result EvidenceError (Bytes × List Bytes) → Str → ℤ → List Finding → List Finding × CertMap
  build_from (err problem) root_pem now_unix findings =
      (add error (codes "identity_unparseable") findings, [])
  build_from (ok ders) root_pem now_unix findings =
      let single_pems = map der_to_pem (ders.0 ∷ ders.1) in
      add_certs single_pems root_pem now_unix single_pems (findings, [])

  unfoldable pub build_cert_map : Option Str → List Str → ℤ → List Finding → List Finding × CertMap
  build_cert_map none root_pems now_unix findings =
      (add warning (codes "identity_missing") findings, [])
  build_cert_map (some certs_pem) [] now_unix findings = (findings, [])
  build_cert_map (some certs_pem) (pem ∷ pems) now_unix findings =
      build_from (parse_pem_chain certs_pem) (join_lines (pem ∷ pems)) now_unix findings

  -- the keys of the certificates that can be read
  abbrev pub push_key : Result EvidenceError VerifyingKey → List VerifyingKey → List VerifyingKey
  push_key (ok k) keys = k ∷ keys
  push_key (err problem) keys = keys

  unfoldable pub keys_of_ders : List Bytes → List VerifyingKey
  keys_of_ders [] = []
  keys_of_ders (der ∷ ders) =
      let rest = keys_of_ders ders in
      elim (x.from_der der) [ none ↦ rest | some cert ↦ push_key (extract_ed25519_key cert) rest ]

  -- the public keys of the roots
  unfoldable pub root_keys : List Str → List VerifyingKey
  root_keys [] = []
  root_keys (pem ∷ pems) =
      let rest = root_keys pems in
      elim (parse_pem_chain pem) [
        | err problem ↦ rest
        | ok ders ↦ keys_of_ders (ders.0 ∷ ders.1) ++ rest
      ]

abbrev pub succeeds {ℓ} : {A : Type ℓ} → Result EvidenceError A → Bool
succeeds (ok a) = true
succeeds (err problem) = false

module _ ⦃d : Digests⦄ ⦃e : Ed25519⦄ where
  -- whether one of the roots signed the statement
  unfoldable pub any_root : ConsoleKeyStatement → Str → List VerifyingKey → Bool
  any_root statement sig [] = false
  any_root statement sig (rk ∷ keys) =
      succeeds (verify_jcs rk (statement_value statement) sig) || any_root statement sig keys

  -- an entry whose key can be read
  unfoldable pub add_key :
      List VerifyingKey
      → ConsoleKeyStatement
      → Option Str
      → VerifyingKey
      → List Finding × KeyMap
      → List Finding × KeyMap
  add_key roots statement none key s =
      (add warning (codes "console_key_unattested") s.0, str_insert statement.key_id key s.1)
  add_key roots statement (some sig) key s =
      if any_root statement sig roots
      then (s.0, str_insert statement.key_id key s.1)
      else (add error (codes "console_key_attestation_invalid") s.0, s.1)

  module _ ⦃k : KeyPems⦄ where
    -- one turn of the loop
    unfoldable pub add_entry :
        List VerifyingKey → AttestedConsoleKey → List Finding × KeyMap → List Finding × KeyMap
    add_entry roots entry s = elim (from_spki_pem entry.statement.public_key_pem) [
      | err problem ↦ (add warning (codes "console_key_unparseable") s.0, s.1)
      | ok key ↦ add_key roots entry.statement entry.signature key s
    ]

    -- the loop over the console keys of the bundle
    unfoldable pub add_entries :
        List VerifyingKey → List AttestedConsoleKey → List Finding × KeyMap → List Finding × KeyMap
    add_entries roots [] s = s
    add_entries roots (entry ∷ entries) s = add_entries roots entries (add_entry roots entry s)

    -- the key that is given
    abbrev pub override_key :
        Result EvidenceError VerifyingKey → List Finding → List Finding × KeyMap
    override_key (ok key) findings = (findings, (codes "override", key) ∷ [])
    override_key (err problem) findings = (add error (codes "console_key_invalid") findings, [])

    abbrev pub bundle_keys :
        ⦃x : X509⦄ → Option RootsFile → List Str → List Finding → List Finding × KeyMap
    bundle_keys none root_pems findings = (findings, [])
    bundle_keys (some roots) root_pems findings =
        add_entries (root_keys root_pems) roots.console_keys (findings, [])

    unfoldable pub resolve_console_keys :
        ⦃x : X509⦄
        → VerifyOptions
        → Option RootsFile
        → List Str
        → List Finding
        → List Finding × KeyMap
    resolve_console_keys opts bundle_roots root_pems findings = elim opts.console_key_override [
      | some pem ↦ override_key (from_spki_pem pem) findings
      | none ↦ bundle_keys bundle_roots root_pems findings
    ]
