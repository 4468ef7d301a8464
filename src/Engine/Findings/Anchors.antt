-- ===== src/Engine/Findings/Anchors.antt =====
-- The findings of the anchors stand behind those of before.
use sealr_verify.Common.{
  ◌&&◌, not, Bool-cases, inl, inr, Option, none, some, List, [], ◌∷◌, length, ◌==◌, if◌then◌else◌,
}
use sealr_verify.Common.Text.{Bytes, Str, str_eq, codes}
use sealr_verify.Common.Result.{Result, ok, err, EvidenceError, BundleError, collect}
use sealr_verify.Deps.{Digests, Ed25519}
use sealr_verify.Deps.Tokens.{Tokens}
use sealr_verify.Merkle.{merkle_root}
use sealr_verify.Hash.{hex_encode, sha256_raw, sha256_hex, hex_decode_digest}
use sealr_verify.Tsa.{TsaError, VerifiedToken, verify_token}
use sealr_verify.Bundle.Anchors.{
  AnchorBatch, AnchorProofs, CheckpointInclusion, DailyRoot, verify_inclusion,
}
use sealr_verify.Report.{Finding, info, warning, error}
use sealr_verify.Engine.Identity.{KeyMap}
use sealr_verify.Engine.Anchors.{
  Streams, Anchoring, note_finding, find_digest, or_zeros, Included, compare_leaf, match_leaf,
  imprint_of, add_inclusion, check_inclusions, accept_batch, check_token, check_batch_token,
  check_bound_batch, check_batch, check_batches, accept_day, read_qts, bind_qts, check_qts,
  any_day_key, check_day_signature, check_day_roots, check_day, check_days, verify_anchors,
}
use sealr_verify.Engine.Findings.{IsBefore, IsBefore-refl, IsBefore-trans, add-IsBefore}

compare_leaf-IsBefore :
    (inc : CheckpointInclusion) (out : Option (Str × Bytes)) (s : Included)
    → IsBefore s.0 (compare_leaf inc out s).0
unfolding compare_leaf
compare_leaf-IsBefore inc none s = add-IsBefore info (codes "anchor_checkpoint_not_in_export") s.0
compare_leaf-IsBefore inc (some found) s =
    elim (Bool-cases (str_eq (or_zeros (hex_decode_digest inc.leaf)) found.1)) [
      | inl t ↦ rw t (IsBefore-refl s.0)
      | inr t ↦ rw t (add-IsBefore error (codes "anchor_leaf_mismatch") s.0)
    ]

add_inclusion-IsBefore :
    (streams : Streams) (inc : CheckpointInclusion) (out : Result EvidenceError (Unit {0}))
    (s : Included)
    → IsBefore s.0 (add_inclusion streams inc out s).0
unfolding add_inclusion match_leaf
add_inclusion-IsBefore streams inc (err problem) s =
    add-IsBefore error (codes "anchor_inclusion_invalid") s.0
add_inclusion-IsBefore streams inc (ok u) s =
    compare_leaf-IsBefore inc (find_digest inc.checkpoint_id streams) s

module _ ⦃d : Digests⦄ where
  check_inclusions-IsBefore :
      (streams : Streams) (root : Str) (incs : List CheckpointInclusion) (s : Included)
      → IsBefore s.0 (check_inclusions streams root incs s).0
  unfolding check_inclusions
  check_inclusions-IsBefore streams root [] s = IsBefore-refl s.0
  check_inclusions-IsBefore streams root (inc ∷ incs) s =
      IsBefore-trans s.0 _ _ (add_inclusion-IsBefore streams inc (verify_inclusion inc root) s)
        (check_inclusions-IsBefore streams root incs _)

  module _ ⦃t : Tokens⦄ (entry_bytes : Str → Result BundleError Bytes) where
    accept_batch-IsBefore :
        (included : List (Str × Str)) (out : Result TsaError VerifiedToken) (a : Anchoring)
        → IsBefore a.findings (accept_batch entry_bytes included out a).findings
    unfolding accept_batch
    accept_batch-IsBefore included (err problem) a =
        add-IsBefore error (codes "anchor_invalid") a.findings
    accept_batch-IsBefore included (ok token) a =
        add-IsBefore info (codes "anchor_verified") a.findings

    check_token-IsBefore :
        (sha path : Str) (included : List (Str × Str)) (a : Anchoring)
        → IsBefore a.findings (check_token entry_bytes sha path included a).findings
    unfolding check_token
    check_token-IsBefore sha path included a = imprinted (imprint_of sha)
      where
        fetched :
            (imprint : Bytes) (out : Result BundleError Bytes)
            → IsBefore a.findings
                (elim out as (λ o. Anchoring) [
                  | err problem ↦ note_finding error (codes "anchor_token_missing") a
                  | ok bytes ↦ accept_batch entry_bytes included (verify_token bytes imprint) a
                ]).findings
        fetched imprint (err problem) = add-IsBefore error (codes "anchor_token_missing") a.findings
        fetched imprint (ok bytes) = accept_batch-IsBefore included (verify_token bytes imprint) a

        imprinted :
            (out : Result EvidenceError Bytes)
            → IsBefore a.findings
                (elim out as (λ o. Anchoring) [
                  | err problem ↦ a
                  | ok imprint ↦ elim (entry_bytes path) as (λ o. Anchoring) [
                    | err problem ↦ note_finding error (codes "anchor_token_missing") a
                    | ok bytes ↦ accept_batch entry_bytes included (verify_token bytes imprint) a
                  ]
                ]).findings
        imprinted (err problem) = IsBefore-refl a.findings
        imprinted (ok imprint) = fetched imprint (entry_bytes path)

    check_batch_token-IsBefore :
        (batch : AnchorBatch) (file : Option Str) (included : List (Str × Str)) (a : Anchoring)
        → IsBefore a.findings (check_batch_token entry_bytes batch file included a).findings
    unfolding check_batch_token
    check_batch_token-IsBefore batch none included a =
        add-IsBefore warning (codes "anchor_pending") a.findings
    check_batch_token-IsBefore batch (some path) included a =
        check_token-IsBefore batch.root_sha256 path included a

    check_bound_batch-IsBefore :
        (batch : AnchorBatch) (a : Anchoring)
        → IsBefore a.findings (check_bound_batch entry_bytes batch a).findings
    unfolding check_bound_batch
    check_bound_batch-IsBefore batch a =
        IsBefore-trans a.findings _ _
          (check_inclusions-IsBefore a.streams batch.root_blake3 batch.checkpoints (a.findings, []))
          (check_batch_token-IsBefore batch batch.tsr_file _ (record a { findings = _ }))

    check_batch-IsBefore :
        (batch : AnchorBatch) (a : Anchoring)
        → IsBefore a.findings (check_batch entry_bytes batch a).findings
    unfolding check_batch
    check_batch-IsBefore batch a = split (hex_decode_digest batch.root_blake3)
      where
        split :
            (out : Result EvidenceError Bytes)
            → IsBefore a.findings
                (elim out as (λ o. Anchoring) [
                  | err problem ↦ note_finding error (codes "anchor_invalid") a
                  | ok root_raw ↦
                      if str_eq (sha256_hex root_raw) batch.root_sha256
                      then check_bound_batch entry_bytes batch a
                      else note_finding error (codes "anchor_digest_binding_broken") a
                ]).findings
        split (err problem) = add-IsBefore error (codes "anchor_invalid") a.findings
        split (ok root_raw) = elim (Bool-cases (str_eq (sha256_hex root_raw) batch.root_sha256)) [
          | inl t ↦ rw t (check_bound_batch-IsBefore batch a)
          | inr t ↦ rw t (add-IsBefore error (codes "anchor_digest_binding_broken") a.findings)
        ]

    check_batches-IsBefore :
        (batches : List AnchorBatch) (a : Anchoring)
        → IsBefore a.findings (check_batches entry_bytes batches a).findings
    unfolding check_batches
    check_batches-IsBefore [] a = IsBefore-refl a.findings
    check_batches-IsBefore (batch ∷ batches) a =
        IsBefore-trans a.findings _ _ (check_batch-IsBefore batch a)
          (check_batches-IsBefore batches _)

    accept_day-IsBefore :
        (out : Result TsaError VerifiedToken) (a : Anchoring)
        → IsBefore a.findings (accept_day entry_bytes out a).findings
    unfolding accept_day
    accept_day-IsBefore (err problem) a = add-IsBefore error (codes "qts_invalid") a.findings
    accept_day-IsBefore (ok token) a = add-IsBefore info (codes "qts_verified") a.findings

    read_qts-IsBefore :
        (sha : Bytes) (out : Result BundleError Bytes) (a : Anchoring)
        → IsBefore a.findings (read_qts entry_bytes sha out a).findings
    unfolding read_qts
    read_qts-IsBefore sha (err problem) a =
        add-IsBefore error (codes "qts_token_missing") a.findings
    read_qts-IsBefore sha (ok bytes) a = accept_day-IsBefore (verify_token bytes sha) a

    bind_qts-IsBefore :
        (qts : Str) (out : Result EvidenceError Bytes) (a : Anchoring)
        → IsBefore a.findings (bind_qts entry_bytes qts out a).findings
    unfolding bind_qts
    bind_qts-IsBefore qts (err problem) a = IsBefore-refl a.findings
    bind_qts-IsBefore qts (ok root_raw) a =
        read_qts-IsBefore (sha256_raw root_raw) (entry_bytes qts) a

    check_qts-IsBefore :
        (root : Str) (qts : Option Str) (a : Anchoring)
        → IsBefore a.findings (check_qts entry_bytes root qts a).findings
    unfolding check_qts
    check_qts-IsBefore root none a = IsBefore-refl a.findings
    check_qts-IsBefore root (some qts) a = bind_qts-IsBefore qts (hex_decode_digest root) a

    module _ ⦃e : Ed25519⦄ where
      check_day_signature-IsBefore :
          (keys : KeyMap) (day : DailyRoot) (sig key_id : Option Str) (a : Anchoring)
          → IsBefore a.findings (check_day_signature entry_bytes keys day sig key_id a).findings
      unfolding check_day_signature
      check_day_signature-IsBefore keys day none key_id a = IsBefore-refl a.findings
      check_day_signature-IsBefore keys day (some sig) none a = IsBefore-refl a.findings
      check_day_signature-IsBefore keys day (some sig) (some key_id) a =
          elim (Bool-cases (not (any_day_key entry_bytes day sig keys) && not (length keys == 0))) [
            | inl t ↦ rw t (add-IsBefore error (codes "daily_root_signature_invalid") a.findings)
            | inr t ↦ rw t (IsBefore-refl a.findings)
          ]

      check_day_roots-IsBefore :
          (keys : KeyMap) (day : DailyRoot) (out : Result EvidenceError (List Bytes))
          (a : Anchoring)
          → IsBefore a.findings (check_day_roots entry_bytes keys day out a).findings
      unfolding check_day_roots
      check_day_roots-IsBefore keys day (err problem) a =
          add-IsBefore error (codes "daily_root_invalid") a.findings
      check_day_roots-IsBefore keys day (ok leaves) a =
          elim (Bool-cases (str_eq (hex_encode (merkle_root leaves)) day.root_blake3)) [
            | inr t ↦ rw t (add-IsBefore error (codes "daily_root_mismatch") a.findings)
            | inl t ↦ rw t (
                IsBefore-trans a.findings _ _
                  (check_day_signature-IsBefore keys day day.signature day.console_key_id a)
                  (check_qts-IsBefore day.root_blake3 day.qts_file
                    (check_day_signature entry_bytes keys day day.signature day.console_key_id a)))
          ]

      check_days-IsBefore :
          (keys : KeyMap) (days : List DailyRoot) (a : Anchoring)
          → IsBefore a.findings (check_days entry_bytes keys days a).findings
      unfolding check_days check_day
      check_days-IsBefore keys [] a = IsBefore-refl a.findings
      check_days-IsBefore keys (day ∷ days) a =
          IsBefore-trans a.findings _ _
            (check_day_roots-IsBefore keys day (collect hex_decode_digest day.batch_roots) a)
            (check_days-IsBefore keys days (check_day entry_bytes keys day a))

      pub verify_anchors-IsBefore :
          (proofs : AnchorProofs) (keys : KeyMap) (fs : List Finding) (streams : Streams)
          → IsBefore fs (verify_anchors entry_bytes proofs keys fs streams).findings
      unfolding verify_anchors
      verify_anchors-IsBefore proofs keys fs streams =
          let start : Anchoring = record { findings = fs; streams = streams; earliest = none } in
          IsBefore-trans fs _ _ (check_batches-IsBefore proofs.batches start)
            (check_days-IsBefore keys proofs.daily (check_batches entry_bytes proofs.batches start))
