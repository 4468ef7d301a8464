-- ===== src/Engine/Checkpoints/Refused.antt =====
-- A checkpoint that `verify_checkpoints` does not keep leaves an error.
use sealr_verify.Bundle.Types.{BundleCheckpoint}
use sealr_verify.Common.{
  ◌≡◌, ◌⊎◌, inl, inr, refl, sym, ap, ◌∙◌, subst, true, ◌&&◌, Bool-cases, Option-cases, Option, none,
  some, List, [], ◌∷◌, All, length, ◌==◌, ℕ,
}
use sealr_verify.Common.Text.{Str, codes, str_eq}
use sealr_verify.Deps.{Digests, Ed25519, Chrono}
use sealr_verify.Record.{parse_wall}
use sealr_verify.Certs.{ValidatedCert}
use sealr_verify.Checkpoint.{CheckpointNote, Countersignature, verify, verify_root}
use sealr_verify.Report.{Finding, error, is_error, any_severity}
use sealr_verify.Engine.{SeqMap, StreamData, str_get, add_at}
use sealr_verify.Engine.Maps.{any_severity-append}
use sealr_verify.Engine.Checkpoints.{
  Trust, Progress, is_ok, covered, expected_count, any_key, check_countersignature, check_root,
  check_fork, revoked_at, check_signed, check_one, check_all, verify_checkpoints,
}
use sealr_verify.Engine.Checkpoints.Attested.{check_one-Step}
use sealr_verify.Engine.Checkpoints.Kept.{
  countersignature_fits, root_fits, cert_fits, is_kept, fork_findings-data,
}
use sealr_verify.Engine.Findings.Streams.{check_all-IsBefore}

abbrev pub HasError : List Finding → Type 0
HasError fs = any_severity is_error fs ≡ true

add_at-HasError :
    (class stream : Str) (seq : Option ℕ) (fs : List Finding)
    → HasError (add_at error class stream seq fs)
unfolding add_at
add_at-HasError class stream seq [] = refl
add_at-HasError class stream seq (f ∷ fs) = elim (Bool-cases (is_error f.severity)) [
  | inl t ↦ rw t refl
  | inr t ↦ rw t (add_at-HasError class stream seq fs)
]

module _ ⦃e : Ed25519⦄ ⦃d : Digests⦄ where
  countersignature-fits :
      (t : Trust) (note : CheckpointNote) (cs : Option Countersignature) (p : Progress)
      → (countersignature_fits t cs ≡ true) ⊎ HasError (check_countersignature t note cs p).findings
  unfolding check_countersignature
  countersignature-fits t note none p = inl refl
  countersignature-fits t note (some cs) p = elim (Bool-cases (any_key cs t.console_keys)) [
    | inl k ↦ rw k (inl refl)
    | inr k ↦ elim (Bool-cases (length t.console_keys == 0)) [
      | inl z ↦ rw (k, z) (inl refl)
      | inr z ↦
          rw (k, z)
            (inr (add_at-HasError (codes "countersignature_invalid") t.stream_id none p.findings))
    ]
  ]

  root-fits :
      (t : Trust) (bc : BundleCheckpoint) (p : Progress)
      → ((root_fits p.stream_data.hashes_by_seq bc && countersignature_fits t bc.countersignature)
          ≡ true)
        ⊎ HasError (check_root t bc p).findings
  unfolding check_root
  root-fits t bc p =
      let note = bc.checkpoint.note in
      let hashes = covered p.stream_data.hashes_by_seq note in
      elim (Bool-cases (length hashes == expected_count note)) [
        | inr l ↦ rw l (countersignature-fits t note bc.countersignature _)
        | inl l ↦ elim (Bool-cases (is_ok (verify_root bc.checkpoint hashes))) [
          | inr r ↦
              rw (l, r)
                (inr
                  (add_at-HasError (codes "checkpoint_root_mismatch") t.stream_id none p.findings))
          | inl r ↦ rw (l, r) (countersignature-fits t note bc.countersignature _)
        ]
      ]

  fork-fits :
      (t : Trust) (bc : BundleCheckpoint) (p : Progress)
      → ((root_fits p.stream_data.hashes_by_seq bc && countersignature_fits t bc.countersignature)
          ≡ true)
        ⊎ HasError (check_fork t bc p).findings
  unfolding check_fork
  fork-fits t bc p = elim (root-fits t bc _) [
    | inl fits ↦ inl (
        ap
          (λ (x : StreamData).
            root_fits x.hashes_by_seq bc && countersignature_fits t bc.countersignature)
          (sym (fork_findings-data t bc.checkpoint.note p.ranges p))
        ∙ fits)
    | inr wrong ↦ inr wrong
  ]

module _ ⦃e : Ed25519⦄ ⦃d : Digests⦄ ⦃c : Chrono⦄ (t : Trust) where
  cert-fits :
      (bc : BundleCheckpoint) (k : ValidatedCert) (p : Progress)
      → (cert_fits t p.stream_data.hashes_by_seq bc (some k) ≡ true)
        ⊎ HasError (check_signed t bc k.public_key p).findings
  unfolding check_signed
  cert-fits bc k p =
      let note = bc.checkpoint.note in
      elim (Bool-cases (is_ok (verify bc.checkpoint k.public_key))) [
        | inr v ↦ rw v (
            inr
              (add_at-HasError (codes "checkpoint_signature_invalid") t.stream_id none p.findings))
        | inl v ↦
            elim (Bool-cases
              (revoked_at t.revocations note.recorder_cert_fingerprint (parse_wall note.ts_wall))) [
                | inl r ↦
                    rw (v, r)
                      (inr (
                        add_at-HasError (codes "checkpoint_after_revocation") t.stream_id none
                          p.findings))
                | inr r ↦ rw (v, r) (fork-fits t bc p)
              ]
      ]

  check_one-kept :
      (bc : BundleCheckpoint) (p : Progress)
      → (is_kept t p.stream_data.hashes_by_seq bc ≡ true) ⊎ HasError (check_one t bc p).findings
  unfolding check_one
  check_one-kept bc p =
      let note = bc.checkpoint.note in
      elim (Bool-cases (str_eq note.stream_id t.stream_id)) [
        | inr m ↦
            rw m (
              inr
                (add_at-HasError (codes "checkpoint_stream_mismatch") t.stream_id none p.findings))
        | inl m ↦ elim (Option-cases (str_get note.recorder_cert_fingerprint t.cert_map)) [
          | inl u ↦
              rw (m, u)
                (inr
                  (add_at-HasError (codes "checkpoint_cert_unknown") t.stream_id none p.findings))
          | inr (k, u) ↦ rw (m, u) (cert-fits bc k p)
        ]
      ]

  -- the checkpoints are all kept
  abbrev pub AllKept : SeqMap → List BundleCheckpoint → Type 0
  AllKept hashes bcs = All (λ bc. is_kept t hashes bc ≡ true) bcs

  check_all-kept :
      (bcs : List BundleCheckpoint) (p : Progress)
      → AllKept p.stream_data.hashes_by_seq bcs ⊎ HasError (check_all t bcs p).findings
  unfolding check_all
  check_all-kept [] p = inl tt
  check_all-kept (bc ∷ rest) p = elim (check_one-kept bc p) [
    | inr wrong ↦
        let (more, after) = check_all-IsBefore t rest (check_one t bc p) in
        inr (
          ap (any_severity is_error) after
          ∙ any_severity-append is_error (check_one t bc p).findings more wrong)
    | inl kept ↦ elim (check_all-kept rest (check_one t bc p)) [
      | inr wrong ↦ inr wrong
      | inl others ↦ inl (kept, subst (λ h. AllKept h rest) (check_one-Step t bc p).hashes others)
    ]
  ]

  -- each checkpoint is kept, or there is an error
  pub verify_checkpoints-kept_or_error :
      (bcs : List BundleCheckpoint) (findings : List Finding) (stream_data : StreamData)
      → AllKept stream_data.hashes_by_seq bcs
        ⊎ HasError (verify_checkpoints t bcs findings stream_data).0
  unfolding verify_checkpoints
  verify_checkpoints-kept_or_error bcs findings stream_data =
      check_all-kept bcs (record { findings = findings; stream_data = stream_data; ranges = [] })
