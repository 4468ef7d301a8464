-- ===== src/Engine/Run/Refused.antt =====
-- In a run without errors every checkpoint that was read is kept.
use sealr_verify.Common.{◌≡◌, ◌⊎◌, sym, ap, ◌∙◌, subst, inl, inr, false, List, [], ◌∷◌}
use sealr_verify.Common.Int.{ℤ}
use sealr_verify.Common.Text.{Str}
use sealr_verify.Common.Result.{Result, ok, err, BundleError}
use sealr_verify.Deps.{Digests, Ed25519, Ulids, Chrono, Serde, KeyPems}
use sealr_verify.Deps.Archives.{Zips, Zstd}
use sealr_verify.Deps.X509.{X509}
use sealr_verify.Deps.Tokens.{Tokens}
use sealr_verify.Bundle.Types.{StreamCheckpoints}
use sealr_verify.Bundle.Reader.{
  BundleReader, Parsers, entry_bytes, stream_checkpoints, anchor_proofs,
}
use sealr_verify.Report.{Finding, is_error, any_severity}
use sealr_verify.Engine.{SeqMap, StreamData}
use sealr_verify.Engine.Trust.{VerifyOptions}
use sealr_verify.Engine.Maps.{any_severity-append}
use sealr_verify.Engine.Checkpoints.{Trust}
use sealr_verify.Engine.Checkpoints.Attested.{verify_checkpoints-kept}
use sealr_verify.Engine.Checkpoints.Refused.{HasError, AllKept, verify_checkpoints-kept_or_error}
use sealr_verify.Engine.Findings.{IsBefore}
use sealr_verify.Engine.Findings.Streams.{checkpoint_streams-IsBefore}
use sealr_verify.Engine.Anchors.{Streams}
use sealr_verify.Engine.Anchors.Anchored.{AllGrow}
use sealr_verify.Engine.Anchors.Timed.{verify_anchors_sound}
use sealr_verify.Engine.Run.{
  Identity, trust_for, checkpoint_stream, checkpoint_streams, or_default, run_identity,
  run_checkpoints, run_anchors, run_findings,
}
use sealr_verify.Engine.Run.Start.{AllStreams}
use sealr_verify.Engine.Run.Roots.{run_checkpoints-IsBefore}

IsBefore-HasError : (fs gs : List Finding) → IsBefore fs gs → HasError fs → HasError gs
IsBefore-HasError fs gs (more, after) wrong =
    ap (any_severity is_error) after ∙ any_severity-append is_error fs more wrong

module _ ⦃e : Ed25519⦄ ⦃d : Digests⦄ ⦃h : Chrono⦄ where
  -- the checkpoints that were read are all kept
  abbrev pub ReadKept : Trust → SeqMap → Result BundleError StreamCheckpoints → Type 0
  ReadKept t hashes (err problem) = Unit
  ReadKept t hashes (ok read) = AllKept t hashes read.checkpoints

module _ ⦃e : Ed25519⦄ ⦃d : Digests⦄ ⦃h : Chrono⦄ (identity : Identity)
    (read : Str → Result BundleError StreamCheckpoints) where
  abbrev pub IsKeptStream : Str → StreamData → Type 0
  IsKeptStream id stream_data = ReadKept (trust_for identity id) stream_data.hashes_by_seq (read id)

  checkpoint_stream-IsKeptStream :
      (id : Str) (fs : List Finding) (stream_data : StreamData)
      → IsKeptStream id (checkpoint_stream identity id (read id) fs stream_data).1
        ⊎ HasError (checkpoint_stream identity id (read id) fs stream_data).0
  unfolding checkpoint_stream
  checkpoint_stream-IsKeptStream id fs stream_data = split (read id)
    where
      split :
          (out : Result BundleError StreamCheckpoints)
          → ReadKept
              (trust_for identity id)
              (checkpoint_stream identity id out fs stream_data).1.hashes_by_seq
              out
            ⊎ HasError (checkpoint_stream identity id out fs stream_data).0
      split (err problem) = inl tt
      split (ok c) =
          let t = trust_for identity id in
          elim (verify_checkpoints-kept_or_error t c.checkpoints fs stream_data) [
            | inr wrong ↦ inr wrong
            | inl kept ↦ inl (
                subst (λ m. AllKept t m c.checkpoints)
                  (sym (verify_checkpoints-kept t c.checkpoints fs stream_data).0) kept)
          ]

  checkpoint_streams-IsKeptStream :
      (streams : Streams) (fs : List Finding)
      → AllStreams IsKeptStream (checkpoint_streams identity read streams fs).1
        ⊎ HasError (checkpoint_streams identity read streams fs).0
  unfolding checkpoint_streams
  checkpoint_streams-IsKeptStream [] fs = inl tt
  checkpoint_streams-IsKeptStream (s ∷ streams) fs =
      let out = checkpoint_stream identity s.0 (read s.0) fs s.1 in
      elim (checkpoint_stream-IsKeptStream s.0 fs s.1) [
        | inr wrong ↦ inr (
            IsBefore-HasError out.0 _ (checkpoint_streams-IsBefore identity read streams out.0)
              wrong)
        | inl kept ↦ elim (checkpoint_streams-IsKeptStream streams out.0) [
          | inr wrong ↦ inr wrong
          | inl others ↦ inl (kept, others)
        ]
      ]

  AllGrow-IsKeptStream :
      (C : Str → Str → Type 0) (before after : Streams)
      → AllGrow C before after
      → AllStreams IsKeptStream before
      → AllStreams IsKeptStream after
  AllGrow-IsKeptStream C [] [] g old = tt
  AllGrow-IsKeptStream C [] (t ∷ after) g old = absurd g
  AllGrow-IsKeptStream C (s ∷ before) [] g old = absurd g
  AllGrow-IsKeptStream C (s ∷ before) (t ∷ after) g old = (
    subst (λ id. IsKeptStream id t.1) (sym g.0.id)
        (subst (λ m. ReadKept (trust_for identity s.0) m (read s.0)) (sym g.0.hashes) old.0),
    AllGrow-IsKeptStream C before after g.1 old.1,
  )

module _ ⦃z : Zips⦄ ⦃c : Zstd⦄ ⦃p : Parsers⦄ ⦃d : Digests⦄ ⦃u : Ulids⦄ ⦃h : Chrono⦄ ⦃j : Serde⦄
    ⦃e : Ed25519⦄ ⦃x : X509⦄ ⦃k : KeyPems⦄ ⦃t : Tokens⦄ (embedded_pem : Str) (clock : ℤ)
    (r : BundleReader) (opts : VerifyOptions) where
  run_checkpoints-IsKeptStream :
      AllStreams
        (IsKeptStream (run_identity embedded_pem clock r opts).1 (stream_checkpoints r))
        (run_checkpoints embedded_pem clock r opts).1
      ⊎ HasError (run_checkpoints embedded_pem clock r opts).0
  unfolding run_checkpoints
  run_checkpoints-IsKeptStream =
      checkpoint_streams-IsKeptStream (run_identity embedded_pem clock r opts).1
        (stream_checkpoints r) _ _

  pub run_anchors-IsKeptStream :
      any_severity is_error (run_findings embedded_pem clock r opts) ≡ false
      → AllStreams
          (IsKeptStream (run_identity embedded_pem clock r opts).1 (stream_checkpoints r))
          (run_anchors embedded_pem clock r opts).streams
  unfolding run_anchors
  run_anchors-IsKeptStream none_wrong =
      let identity = (run_identity embedded_pem clock r opts).1 in
      elim run_checkpoints-IsKeptStream [
        | inr wrong ↦ absurd (
            cc (
              IsBefore-HasError _ _ (run_checkpoints-IsBefore embedded_pem clock r opts) wrong,
              none_wrong,
            ))
        | inl kept ↦
            AllGrow-IsKeptStream identity (stream_checkpoints r) _ _ _
              (verify_anchors_sound (entry_bytes r) (or_default (anchor_proofs r))
                identity.console_keys _ _)
              kept
      ]
