-- ===== src/Engine/Findings/Streams.antt =====
-- The findings of the chains and of the checkpoints stand behind those of before.
use sealr_verify.Common.{
  ℕ, refl, Bool, true, false, Bool-cases, Option-cases, inl, inr, Option, none, some, List, [], ◌∷◌,
  length, ◌==◌,
}
use sealr_verify.Common.Text.{Bytes, Str, str_eq, codes}
use sealr_verify.Common.Result.{Result, ok, err, EvidenceError, BundleError}
use sealr_verify.Deps.{Digests, Ed25519, Ulids, Chrono, Serde}
use sealr_verify.Json.{Value, and_then, get_key, as_u64}
use sealr_verify.Record.{parse_wall}
use sealr_verify.Keys.{VerifyingKey}
use sealr_verify.Checkpoint.{CheckpointNote, Countersignature, verify, verify_root}
use sealr_verify.Chain.Verifier.{StreamVerifier, ChainFinding, verify_next, new}
use sealr_verify.Bundle.Types.{BundleCheckpoint, StreamCheckpoints}
use sealr_verify.Report.{Finding, info, warning, error}
use sealr_verify.Engine.{StreamData, str_get, no_data}
use sealr_verify.Engine.Trust.{VerifyOptions}
use sealr_verify.Engine.Stream.{
  Walk, classify_chain_finding, chain_severity, add_chain_findings, collect_stats, after_verify,
  on_value, on_parsed, on_lines, finish, with_verifier, verify_stream_chain,
}
use sealr_verify.Engine.Checkpoints.{
  Trust, Range, Progress, report, is_ok, covered, expected_count, is_fork, fork_findings, any_key,
  check_countersignature, check_root, check_fork, revoked_at, check_signed, check_one, check_all,
  verify_checkpoints,
}
use sealr_verify.Engine.Anchors.{Streams}
use sealr_verify.Engine.Run.{
  Identity, trust_for, checkpoint_stream, checkpoint_streams, coverage_streams,
}
use sealr_verify.Engine.Findings.{IsBefore, IsBefore-refl, IsBefore-trans, add_at-IsBefore}

add_chain_findings-IsBefore :
    (id : Str) (seq : Option ℕ) (cfs : List ChainFinding) (fs : List Finding)
    → IsBefore fs (add_chain_findings id seq cfs fs)
unfolding add_chain_findings
add_chain_findings-IsBefore id seq [] fs = IsBefore-refl fs
add_chain_findings-IsBefore id seq (f ∷ cfs) fs =
    IsBefore-trans fs _ _ (add_at-IsBefore (chain_severity f) (classify_chain_finding f) id seq fs)
      (add_chain_findings-IsBefore id seq cfs _)

module _ ⦃d : Digests⦄ ⦃u : Ulids⦄ ⦃c : Chrono⦄ where
  on_value-IsBefore :
      (id : Str) (value : Value) (w : Walk) → IsBefore w.findings (on_value id value w).findings
  unfolding on_value collect_stats
  on_value-IsBefore id value w = split (verify_next w.verifier value)
    where
      seq : Option ℕ
      seq = and_then (get_key (codes "seq") value) as_u64

      split :
          (out : Result EvidenceError (StreamVerifier × List ChainFinding))
          → IsBefore w.findings (after_verify id value seq w out).findings
      split (err problem) = add_at-IsBefore error (codes "record_invalid") id seq w.findings
      split (ok r) = add_chain_findings-IsBefore id seq r.1 w.findings

  module _ ⦃j : Serde⦄ where
    on_parsed-IsBefore :
        (id : Str) (out : Option Value) (w : Walk)
        → IsBefore w.findings (on_parsed id out w).findings
    on_parsed-IsBefore id none w =
        add_at-IsBefore error (codes "record_parse_error") id none w.findings
    on_parsed-IsBefore id (some value) w = on_value-IsBefore id value w

    on_lines-IsBefore :
        (id : Str) (lines : List Bytes) (w : Walk)
        → IsBefore w.findings (on_lines id lines w).findings
    unfolding on_lines
    on_lines-IsBefore id [] w = IsBefore-refl w.findings
    on_lines-IsBefore id (line ∷ lines) w =
        IsBefore-trans w.findings _ _ (on_parsed-IsBefore id (j.from_slice line) w)
          (on_lines-IsBefore id lines _)

    finish-IsBefore :
        (id : Str) (failed : Bool) (w : Walk) → IsBefore w.findings (finish id failed w).0
    finish-IsBefore id true w = add_at-IsBefore error (codes "stream_read_error") id none w.findings
    finish-IsBefore id false w = IsBefore-refl w.findings

    with_verifier-IsBefore :
        (id : Str) (lines : List Bytes) (failed : Bool) (fs : List Finding)
        (out : Result EvidenceError StreamVerifier)
        → IsBefore fs (with_verifier id lines failed fs out).0
    with_verifier-IsBefore id lines failed fs (err problem) =
        add_at-IsBefore error (codes "stream_id_invalid") id none fs
    with_verifier-IsBefore id lines failed fs (ok v) =
        let start : Walk = record {
          findings = fs;
          verifier = v;
          stream_data = no_data;
          segments_seen = [];
          segments_ended = [];
        } in
        IsBefore-trans fs _ _ (on_lines-IsBefore id lines start)
          (finish-IsBefore id failed (on_lines id lines start))

    pub verify_stream_chain-IsBefore :
        (id : Str) (lines : List Bytes) (failed : Bool) (fs : List Finding)
        → IsBefore fs (verify_stream_chain id lines failed fs).0
    unfolding verify_stream_chain
    verify_stream_chain-IsBefore id lines failed fs =
        with_verifier-IsBefore id lines failed fs (new id)

fork_findings-IsBefore :
    (t : Trust) (note : CheckpointNote) (rs : List Range) (p : Progress)
    → IsBefore p.findings (fork_findings t note rs p).findings
unfolding fork_findings
fork_findings-IsBefore t note [] p = IsBefore-refl p.findings
fork_findings-IsBefore t note (r ∷ rs) p = elim (Bool-cases (is_fork note r)) [
  | inl f ↦
      rw (f, fork_findings)
        (IsBefore-trans p.findings _ _
          (add_at-IsBefore error (codes "chain_fork_detected") t.stream_id none p.findings)
          (fork_findings-IsBefore t note rs (report t error (codes "chain_fork_detected") p)))
  | inr f ↦ rw (f, fork_findings) (fork_findings-IsBefore t note rs p)
]

module _ ⦃e : Ed25519⦄ ⦃d : Digests⦄ where
  check_countersignature-IsBefore :
      (t : Trust) (note : CheckpointNote) (cs : Option Countersignature) (p : Progress)
      → IsBefore p.findings (check_countersignature t note cs p).findings
  unfolding check_countersignature
  check_countersignature-IsBefore t note none p =
      add_at-IsBefore info (codes "not_countersigned") t.stream_id none p.findings
  check_countersignature-IsBefore t note (some cs) p =
      elim (Bool-cases (any_key cs t.console_keys)) [
        | inl k ↦ rw k (IsBefore-refl p.findings)
        | inr k ↦ elim (Bool-cases (length t.console_keys == 0)) [
          | inl z ↦
              rw (k, z)
                (add_at-IsBefore warning (codes "countersignature_unverifiable") t.stream_id none
                  p.findings)
          | inr z ↦
              rw (k, z)
                (add_at-IsBefore error (codes "countersignature_invalid") t.stream_id none
                  p.findings)
        ]
      ]

  check_root-IsBefore :
      (t : Trust) (bc : BundleCheckpoint) (p : Progress)
      → IsBefore p.findings (check_root t bc p).findings
  unfolding check_root
  check_root-IsBefore t bc p =
      let note = bc.checkpoint.note in
      let hashes = covered p.stream_data.hashes_by_seq note in
      elim (Bool-cases (length hashes == expected_count note)) [
        | inr l ↦ rw l (
            IsBefore-trans p.findings _ _
              (add_at-IsBefore info (codes "checkpoint_range_not_fully_exported") t.stream_id none
                p.findings)
              (check_countersignature-IsBefore t note bc.countersignature _))
        | inl l ↦ elim (Bool-cases (is_ok (verify_root bc.checkpoint hashes))) [
          | inr r ↦
              rw (l, r)
                (add_at-IsBefore error (codes "checkpoint_root_mismatch") t.stream_id none
                  p.findings)
          | inl r ↦ rw (l, r) (check_countersignature-IsBefore t note bc.countersignature _)
        ]
      ]

  check_fork-IsBefore :
      (t : Trust) (bc : BundleCheckpoint) (p : Progress)
      → IsBefore p.findings (check_fork t bc p).findings
  unfolding check_fork
  check_fork-IsBefore t bc p =
      IsBefore-trans p.findings _ _ (fork_findings-IsBefore t bc.checkpoint.note p.ranges p)
        (check_root-IsBefore t bc _)

module _ ⦃e : Ed25519⦄ ⦃d : Digests⦄ ⦃c : Chrono⦄ where
  check_signed-IsBefore :
      (t : Trust) (bc : BundleCheckpoint) (key : VerifyingKey) (p : Progress)
      → IsBefore p.findings (check_signed t bc key p).findings
  unfolding check_signed
  check_signed-IsBefore t bc key p =
      let note = bc.checkpoint.note in
      elim (Bool-cases (is_ok (verify bc.checkpoint key))) [
        | inr v ↦ rw v (
            add_at-IsBefore error (codes "checkpoint_signature_invalid") t.stream_id none
              p.findings)
        | inl v ↦
            elim (Bool-cases
              (revoked_at t.revocations note.recorder_cert_fingerprint (parse_wall note.ts_wall))) [
                | inl r ↦
                    rw (v, r)
                      (add_at-IsBefore error (codes "checkpoint_after_revocation") t.stream_id none
                        p.findings)
                | inr r ↦ rw (v, r) (check_fork-IsBefore t bc p)
              ]
      ]

  check_one-IsBefore :
      (t : Trust) (bc : BundleCheckpoint) (p : Progress)
      → IsBefore p.findings (check_one t bc p).findings
  unfolding check_one
  check_one-IsBefore t bc p =
      let note = bc.checkpoint.note in
      elim (Bool-cases (str_eq note.stream_id t.stream_id)) [
        | inr m ↦
            rw m (
              add_at-IsBefore error (codes "checkpoint_stream_mismatch") t.stream_id none
                p.findings)
        | inl m ↦ elim (Option-cases (str_get note.recorder_cert_fingerprint t.cert_map)) [
          | inl u ↦
              rw (m, u)
                (add_at-IsBefore error (codes "checkpoint_cert_unknown") t.stream_id none
                  p.findings)
          | inr (k, u) ↦ rw (m, u) (check_signed-IsBefore t bc k.public_key p)
        ]
      ]

  pub check_all-IsBefore :
      (t : Trust) (bcs : List BundleCheckpoint) (p : Progress)
      → IsBefore p.findings (check_all t bcs p).findings
  unfolding check_all
  check_all-IsBefore t [] p = IsBefore-refl p.findings
  check_all-IsBefore t (bc ∷ bcs) p =
      IsBefore-trans p.findings _ _ (check_one-IsBefore t bc p) (check_all-IsBefore t bcs _)

  module _ (identity : Identity) where
    checkpoint_stream-IsBefore :
        (id : Str) (out : Result BundleError StreamCheckpoints) (fs : List Finding)
        (stream_data : StreamData)
        → IsBefore fs (checkpoint_stream identity id out fs stream_data).0
    unfolding checkpoint_stream verify_checkpoints
    checkpoint_stream-IsBefore id (err problem) fs stream_data =
        add_at-IsBefore warning (codes "checkpoints_missing") id none fs
    checkpoint_stream-IsBefore id (ok read) fs stream_data =
        check_all-IsBefore (trust_for identity id) read.checkpoints
          (record { findings = fs; stream_data = stream_data; ranges = [] })

    pub checkpoint_streams-IsBefore :
        (read : Str → Result BundleError StreamCheckpoints) (streams : Streams) (fs : List Finding)
        → IsBefore fs (checkpoint_streams identity read streams fs).0
    unfolding checkpoint_streams
    checkpoint_streams-IsBefore read [] fs = IsBefore-refl fs
    checkpoint_streams-IsBefore read (s ∷ streams) fs =
        IsBefore-trans fs _ _ (checkpoint_stream-IsBefore s.0 (read s.0) fs s.1)
          (checkpoint_streams-IsBefore read streams _)

pub coverage_streams-IsBefore :
    (opts : VerifyOptions) (streams : Streams) (fs : List Finding)
    → IsBefore fs (coverage_streams opts streams fs)
unfolding coverage_streams
coverage_streams-IsBefore opts [] fs = IsBefore-refl fs
coverage_streams-IsBefore opts (s ∷ streams) fs =
    IsBefore-trans fs _ _ (_, refl) (coverage_streams-IsBefore opts streams _)
