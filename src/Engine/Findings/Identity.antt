-- ===== src/Engine/Findings/Identity.antt =====
-- The findings of the identity phase stand behind those of the choice of the roots.
use sealr_verify.Common.{
  ◌&&◌, not, Bool-cases, inl, inr, Option, none, some, List, [], ◌∷◌, map, length, ◌==◌,
}
use sealr_verify.Common.Int.{ℤ}
use sealr_verify.Common.Text.{Bytes, Str, codes}
use sealr_verify.Common.Result.{Result, ok, err, EvidenceError}
use sealr_verify.Deps.{Digests, Ed25519, KeyPems}
use sealr_verify.Deps.X509.{X509}
use sealr_verify.Keys.{VerifyingKey}
use sealr_verify.Keys.Pem.{from_spki_pem}
use sealr_verify.Certs.{ValidatedCert, validate_chain, parse_pem_chain}
use sealr_verify.Revocation.{SignedRevocationList}
use sealr_verify.Bundle.Types.{RootsFile, AttestedConsoleKey, ConsoleKeyStatement}
use sealr_verify.Report.{Finding, warning, error, info}
use sealr_verify.Engine.Trust.{
  add, VerifyOptions, RootSource, override, embedded, bundle_pinned, no_source,
}
use sealr_verify.Engine.Base64.{der_to_pem}
use sealr_verify.Engine.Identity.{
  CertMap, KeyMap, add_cert, add_certs, build_from, build_cert_map, others, join_lines, any_root,
  add_key, add_entry, add_entries, root_keys, override_key, bundle_keys, resolve_console_keys,
}
use sealr_verify.Engine.Run.{any_list_key, revocation_findings, source_findings}
use sealr_verify.Engine.Findings.{IsBefore, IsBefore-refl, IsBefore-trans, add-IsBefore}

add_cert-IsBefore :
    (out : Result EvidenceError ValidatedCert) (s : List Finding × CertMap)
    → IsBefore s.0 (add_cert out s).0
unfolding add_cert
add_cert-IsBefore (ok v) s = IsBefore-refl s.0
add_cert-IsBefore (err problem) s = add-IsBefore warning (codes "cert_unvalidated") s.0

module _ ⦃x : X509⦄ ⦃d : Digests⦄ ⦃e : Ed25519⦄ where
  add_certs-IsBefore :
      (all : List Str) (root : Str) (now : ℤ) (pems : List Str) (s : List Finding × CertMap)
      → IsBefore s.0 (add_certs all root now pems s).0
  unfolding add_certs
  add_certs-IsBefore all root now [] s = IsBefore-refl s.0
  add_certs-IsBefore all root now (pem ∷ pems) s =
      IsBefore-trans s.0 _ _ (add_cert-IsBefore (validate_chain pem (others pem all) root now) s)
        (add_certs-IsBefore all root now pems _)

  build_from-IsBefore :
      (out : Result EvidenceError (Bytes × List Bytes)) (root : Str) (now : ℤ) (fs : List Finding)
      → IsBefore fs (build_from out root now fs).0
  unfolding build_from
  build_from-IsBefore (err problem) root now fs =
      add-IsBefore error (codes "identity_unparseable") fs
  build_from-IsBefore (ok ders) root now fs =
      add_certs-IsBefore (map der_to_pem (ders.0 ∷ ders.1)) root now
        (map der_to_pem (ders.0 ∷ ders.1)) (fs, [])

  pub build_cert_map-IsBefore :
      (certs : Option Str) (roots : List Str) (now : ℤ) (fs : List Finding)
      → IsBefore fs (build_cert_map certs roots now fs).0
  unfolding build_cert_map
  build_cert_map-IsBefore none roots now fs = add-IsBefore warning (codes "identity_missing") fs
  build_cert_map-IsBefore (some pem) [] now fs = IsBefore-refl fs
  build_cert_map-IsBefore (some pem) (root ∷ roots) now fs =
      build_from-IsBefore (parse_pem_chain pem) (join_lines (root ∷ roots)) now fs

module _ ⦃d : Digests⦄ ⦃e : Ed25519⦄ where
  add_key-IsBefore :
      (roots : List VerifyingKey) (statement : ConsoleKeyStatement) (sig : Option Str)
      (key : VerifyingKey) (s : List Finding × KeyMap)
      → IsBefore s.0 (add_key roots statement sig key s).0
  unfolding add_key
  add_key-IsBefore roots statement none key s =
      add-IsBefore warning (codes "console_key_unattested") s.0
  add_key-IsBefore roots statement (some sig) key s =
      elim (Bool-cases (any_root statement sig roots)) [
        | inl t ↦ rw t (IsBefore-refl s.0)
        | inr t ↦ rw t (add-IsBefore error (codes "console_key_attestation_invalid") s.0)
      ]

  module _ ⦃k : KeyPems⦄ where
    add_entry-IsBefore :
        (roots : List VerifyingKey) (entry : AttestedConsoleKey) (s : List Finding × KeyMap)
        → IsBefore s.0 (add_entry roots entry s).0
    unfolding add_entry
    add_entry-IsBefore roots entry s = split (from_spki_pem entry.statement.public_key_pem)
      where
        split :
            (out : Result EvidenceError VerifyingKey)
            → IsBefore s.0
                (elim out as (λ o. List Finding × KeyMap) [
                  | err problem ↦ (add warning (codes "console_key_unparseable") s.0, s.1)
                  | ok key ↦ add_key roots entry.statement entry.signature key s
                ]).0
        split (err problem) = add-IsBefore warning (codes "console_key_unparseable") s.0
        split (ok key) = add_key-IsBefore roots entry.statement entry.signature key s

    add_entries-IsBefore :
        (roots : List VerifyingKey) (entries : List AttestedConsoleKey) (s : List Finding × KeyMap)
        → IsBefore s.0 (add_entries roots entries s).0
    unfolding add_entries
    add_entries-IsBefore roots [] s = IsBefore-refl s.0
    add_entries-IsBefore roots (entry ∷ entries) s =
        IsBefore-trans s.0 _ _ (add_entry-IsBefore roots entry s)
          (add_entries-IsBefore roots entries _)

    override_key-IsBefore :
        (out : Result EvidenceError VerifyingKey) (fs : List Finding)
        → IsBefore fs (override_key out fs).0
    override_key-IsBefore (ok key) fs = IsBefore-refl fs
    override_key-IsBefore (err problem) fs = add-IsBefore error (codes "console_key_invalid") fs

    bundle_keys-IsBefore :
        ⦃x : X509⦄
        → (file : Option RootsFile) (roots : List Str) (fs : List Finding)
        → IsBefore fs (bundle_keys file roots fs).0
    bundle_keys-IsBefore none roots fs = IsBefore-refl fs
    bundle_keys-IsBefore (some file) roots fs =
        add_entries-IsBefore (root_keys roots) file.console_keys (fs, [])

    pub resolve_console_keys-IsBefore :
        ⦃x : X509⦄
        → (opts : VerifyOptions) (file : Option RootsFile) (roots : List Str) (fs : List Finding)
        → IsBefore fs (resolve_console_keys opts file roots fs).0
    unfolding resolve_console_keys
    resolve_console_keys-IsBefore opts file roots fs = split opts.console_key_override
      where
        split :
            (key : Option Str)
            → IsBefore fs
                (resolve_console_keys (record opts { console_key_override = key }) file roots fs).0
        split (some pem) = override_key-IsBefore (from_spki_pem pem) fs
        split none = bundle_keys-IsBefore file roots fs

  pub revocation_findings-IsBefore :
      (list : Option SignedRevocationList) (keys : KeyMap) (fs : List Finding)
      → IsBefore fs (revocation_findings list keys fs)
  unfolding revocation_findings
  revocation_findings-IsBefore none keys fs = IsBefore-refl fs
  revocation_findings-IsBefore (some rev) keys fs =
      elim (Bool-cases (not (any_list_key rev keys) && not (length keys == 0))) [
        | inl t ↦ rw t (add-IsBefore error (codes "revocation_list_signature_invalid") fs)
        | inr t ↦ elim (Bool-cases (length keys == 0)) [
          | inl z ↦ rw (t, z) (add-IsBefore warning (codes "revocation_list_unverifiable") fs)
          | inr z ↦ rw (t, z) (IsBefore-refl fs)
        ]
      ]

pub source_findings-IsBefore :
    (source : RootSource) (fs : List Finding) → IsBefore fs (source_findings source fs)
unfolding source_findings
source_findings-IsBefore no_source fs = IsBefore-refl fs
source_findings-IsBefore override fs = add-IsBefore info (codes "root_source") fs
source_findings-IsBefore embedded fs = add-IsBefore info (codes "root_source") fs
source_findings-IsBefore bundle_pinned fs = add-IsBefore info (codes "root_source") fs
