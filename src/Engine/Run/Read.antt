-- ===== src/Engine/Run/Read.antt =====
-- The notes of the streams of a run are those of the checkpoints that were read.
use sealr_verify.Common.{◌≡◌, sym, ap, ◌∙◌, subst, List, [], ◌∷◌}
use sealr_verify.Common.Int.{ℤ}
use sealr_verify.Common.Text.{Str}
use sealr_verify.Common.Result.{Result, ok, err, BundleError}
use sealr_verify.Deps.{Digests, Ed25519, Ulids, Chrono, Serde, KeyPems}
use sealr_verify.Deps.Archives.{Zips, Zstd}
use sealr_verify.Deps.X509.{X509}
use sealr_verify.Deps.Tokens.{Tokens}
use sealr_verify.Bundle.Types.{StreamCheckpoints}
use sealr_verify.Bundle.Reader.{
  BundleReader, Parsers, entry_bytes, stream_checkpoints, anchor_proofs,
}
use sealr_verify.Report.{Finding}
use sealr_verify.Engine.{SeqMap, StreamData}
use sealr_verify.Engine.Trust.{VerifyOptions}
use sealr_verify.Engine.Checkpoints.{Trust}
use sealr_verify.Engine.Checkpoints.Attested.{verify_checkpoints-kept}
use sealr_verify.Engine.Checkpoints.Kept.{
  Notes, no_notes, notes_of, notes_after, verify_checkpoints-notes,
}
use sealr_verify.Engine.Anchors.{Streams}
use sealr_verify.Engine.Anchors.Anchored.{AllGrow, Grows}
use sealr_verify.Engine.Anchors.Timed.{verify_anchors_sound}
use sealr_verify.Engine.Run.{
  Identity, trust_for, checkpoint_stream, checkpoint_streams, or_default, run_identity, run_chains,
  run_checkpoints, run_anchors,
}
use sealr_verify.Engine.Run.Start.{IsFresh, AllStreams, chain_streams-IsFresh}

module _ ⦃e : Ed25519⦄ ⦃d : Digests⦄ ⦃h : Chrono⦄ where
  -- the notes of the checkpoints that are kept of those that were read
  abbrev pub notes_read : Trust → SeqMap → Result BundleError StreamCheckpoints → Notes
  notes_read t hashes (err problem) = no_notes
  notes_read t hashes (ok read) = notes_after t hashes read.checkpoints no_notes

module _ ⦃e : Ed25519⦄ ⦃d : Digests⦄ ⦃h : Chrono⦄ (identity : Identity)
    (read : Str → Result BundleError StreamCheckpoints) where
  -- a stream whose notes are those of the checkpoints that were read for it
  abbrev pub IsRead : Str → StreamData → Type 0
  IsRead id stream_data =
      notes_of stream_data ≡ notes_read (trust_for identity id) stream_data.hashes_by_seq (read id)

  checkpoint_stream-IsRead :
      (id : Str) (findings : List Finding) (stream_data : StreamData)
      → IsFresh stream_data
      → IsRead id (checkpoint_stream identity id (read id) findings stream_data).1
  unfolding checkpoint_stream
  checkpoint_stream-IsRead id findings stream_data fresh = split (read id)
    where
      split :
          (out : Result BundleError StreamCheckpoints)
          → notes_of (checkpoint_stream identity id out findings stream_data).1
            ≡ notes_read
                (trust_for identity id)
                (checkpoint_stream identity id out findings stream_data).1.hashes_by_seq
                out
      split (err problem) = fresh.notes
      split (ok c) =
          let t = trust_for identity id in
          let kept = verify_checkpoints-kept t c.checkpoints findings stream_data in
          verify_checkpoints-notes t c.checkpoints findings stream_data
          ∙ ap (λ n. notes_after t stream_data.hashes_by_seq c.checkpoints n) fresh.notes
          ∙ ap (λ hashes. notes_after t hashes c.checkpoints no_notes) (sym kept.0)

  checkpoint_streams-IsRead :
      (streams : Streams) (findings : List Finding)
      → AllStreams (λ id stream_data. IsFresh stream_data) streams
      → AllStreams IsRead (checkpoint_streams identity read streams findings).1
  unfolding checkpoint_streams
  checkpoint_streams-IsRead [] findings fresh = tt
  checkpoint_streams-IsRead (s ∷ streams) findings fresh = (
    checkpoint_stream-IsRead s.0 findings s.1 fresh.0,
    checkpoint_streams-IsRead streams _ fresh.1,
  )

  Grows-IsRead :
      (C : Str → Str → Type 0) (before after : Str × StreamData)
      → Grows C before after
      → IsRead before.0 before.1
      → IsRead after.0 after.1
  Grows-IsRead C before after g old =
      let same : notes_of after.1 ≡ notes_of before.1 = λ i. record {
        digests = g.digests i;
        hashes = g.note_hashes i;
        links = g.links i;
        ranges = g.ranges i;
      } in
      let moved : IsRead before.0 after.1 =
        same
        ∙ old
        ∙ ap (λ m. notes_read (trust_for identity before.0) m (read before.0)) (sym g.hashes) in
      subst (λ id. IsRead id after.1) (sym g.id) moved

  AllGrow-IsRead :
      (C : Str → Str → Type 0) (before after : Streams)
      → AllGrow C before after
      → AllStreams IsRead before
      → AllStreams IsRead after
  AllGrow-IsRead C [] [] g old = tt
  AllGrow-IsRead C [] (t ∷ after) g old = absurd g
  AllGrow-IsRead C (s ∷ before) [] g old = absurd g
  AllGrow-IsRead C (s ∷ before) (t ∷ after) g old =
      (Grows-IsRead C s t g.0 old.0, AllGrow-IsRead C before after g.1 old.1)

module _ ⦃z : Zips⦄ ⦃c : Zstd⦄ ⦃p : Parsers⦄ ⦃d : Digests⦄ ⦃u : Ulids⦄ ⦃h : Chrono⦄ ⦃j : Serde⦄
    ⦃e : Ed25519⦄ ⦃x : X509⦄ ⦃k : KeyPems⦄ ⦃t : Tokens⦄ (embedded_pem : Str) (clock : ℤ)
    (r : BundleReader) (opts : VerifyOptions) where
  -- the streams of this run
  abbrev pub IsReadBy : Str → StreamData → Type 0
  IsReadBy = IsRead (run_identity embedded_pem clock r opts).1 (stream_checkpoints r)

  pub run_checkpoints-IsRead : AllStreams IsReadBy (run_checkpoints embedded_pem clock r opts).1
  unfolding run_checkpoints run_chains
  run_checkpoints-IsRead =
      checkpoint_streams-IsRead (run_identity embedded_pem clock r opts).1 (stream_checkpoints r) _
        _
        (chain_streams-IsFresh r r.manifest.scope.streams
          ((run_identity embedded_pem clock r opts).0, []) tt)

  pub run_anchors-IsRead : AllStreams IsReadBy (run_anchors embedded_pem clock r opts).streams
  unfolding run_anchors
  run_anchors-IsRead =
      let identity = (run_identity embedded_pem clock r opts).1 in
      AllGrow-IsRead identity (stream_checkpoints r) _ _ _
        (verify_anchors_sound (entry_bytes r) (or_default (anchor_proofs r)) identity.console_keys _
          _)
        run_checkpoints-IsRead
