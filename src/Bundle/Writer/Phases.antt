-- ===== src/Bundle/Writer/Phases.antt =====
-- The phases of the bundle writer: they only go forward, and a method that comes too late is refused
-- and changes nothing.
use sealr_verify.Common.{◌<◌, ◌≡◌, true, false, arith, ltb, ◌==◌}
use sealr_verify.Common.Result.{ok, err, invalid}
use sealr_verify.Deps.{Digests, Serde}
use sealr_verify.Deps.Archives.{Zips, Zstd}
use sealr_verify.Bundle.Writer.{
  vault, anchors, BundleWriter, Pretty, Phase, rank, records, checkpoints, require_phase,
  close_records,
}
use sealr_verify.Bundle.Writer.Documents.{
  add_stream_checkpoints, add_rfc3161_token, add_qts_token, add_anchor_proofs, add_identity,
  add_vault_entry,
}
use sealr_verify.Bundle.Writer.Records.{add_stream_records}
use sealr_verify.Bundle.Writer.Methods.{
  Method, stream_records, stream_checkpoints, rfc3161_token, qts_token, anchor_proofs, identity,
  vault_entry, last_phase, run,
}

module _ ⦃z : Zips⦄ where
  pub require_phase-late :
      (at_most next : Phase) (w : BundleWriter)
      → rank at_most < rank w.phase
      → require_phase at_most next w ≡ (err invalid, w)
  unfolding require_phase
  require_phase-late at_most next w h =
      let late : ltb (rank at_most) (rank w.phase) ≡ true = ground (arith) in rw late

module _ ⦃z : Zips⦄ ⦃d : Digests⦄ ⦃p : Pretty⦄ where
  pub close_records-late : (w : BundleWriter) → 0 < rank w.phase → close_records w ≡ (ok tt, w)
  unfolding close_records
  close_records-late w h = let late : (rank w.phase == 0) ≡ false = ground (arith) in rw late

module _ ⦃z : Zips⦄ ⦃c : Zstd⦄ ⦃d : Digests⦄ ⦃s : Serde⦄ ⦃p : Pretty⦄ where
  -- A method that is called after its last phase returns the error `Invalid` and leaves the writer
  -- as it was.
  pub run-late :
      (m : Method) (w : BundleWriter)
      → rank (last_phase m) < rank w.phase
      → run m w ≡ (err invalid, w)
  unfolding add_stream_records add_stream_checkpoints add_rfc3161_token add_qts_token
      add_anchor_proofs add_identity add_vault_entry
  run-late (stream_records id lines) w h = rw (require_phase-late records records w h)
  run-late (stream_checkpoints id cps) w h =
      rw (close_records-late w (omega arith), require_phase-late checkpoints checkpoints w h)
  run-late (rfc3161_token id token) w h =
      rw (close_records-late w (omega arith), require_phase-late anchors anchors w h)
  run-late (qts_token day token) w h =
      rw (close_records-late w (omega arith), require_phase-late anchors anchors w h)
  run-late (anchor_proofs proofs) w h =
      rw (close_records-late w (omega arith), require_phase-late anchors anchors w h)
  run-late (identity pem rev roots) w h =
      rw (close_records-late w (omega arith), require_phase-late anchors Phase.identity w h)
  run-late (vault_entry name bytes) w h = rw (require_phase-late vault vault w h)
