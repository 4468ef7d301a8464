-- ===== src/Bundle/Writer/Methods.antt =====
-- The methods of the bundle writer that a caller has, with their arguments.
use sealr_verify.Common.{◌≡◌, Option, List}
use sealr_verify.Common.Text.{Bytes, Str}
use sealr_verify.Common.Result.{Result, BundleError}
use sealr_verify.Common.Run.{◌>>◌, pure}
use sealr_verify.Deps.{Digests, Serde}
use sealr_verify.Deps.Archives.{Zips, Zstd}
use sealr_verify.Revocation.{SignedRevocationList}
use sealr_verify.Bundle.Anchors.{AnchorProofs}
use sealr_verify.Bundle.Types.{BundleCheckpoint, RootsFile}
use sealr_verify.Bundle.Writer.{
  BundleWriter, Write, Pretty, Phase, records, checkpoints, anchors, vault,
}
use sealr_verify.Bundle.Writer.Documents.{
  add_stream_checkpoints, add_rfc3161_token, add_qts_token, add_anchor_proofs, add_identity,
  add_vault_entry,
}
use sealr_verify.Bundle.Writer.Records.{add_stream_records}

pub data Method : Type 0 where
  stream_records : Str → List (Result BundleError Bytes) → Method
  stream_checkpoints : Str → List BundleCheckpoint → Method
  rfc3161_token : Str → Bytes → Method
  qts_token : Str → Bytes → Method
  anchor_proofs : AnchorProofs → Method
  identity : Str → Option SignedRevocationList → RootsFile → Method
  vault_entry : Str → Bytes → Method

-- the last phase in which a method may be called
abbrev pub last_phase : Method → Phase
last_phase (stream_records id lines) = records
last_phase (stream_checkpoints id cps) = checkpoints
last_phase (rfc3161_token id token) = anchors
last_phase (qts_token day token) = anchors
last_phase (anchor_proofs proofs) = anchors
last_phase (identity pem rev roots) = anchors
last_phase (vault_entry name bytes) = vault

module _ ⦃z : Zips⦄ ⦃c : Zstd⦄ ⦃d : Digests⦄ ⦃s : Serde⦄ ⦃p : Pretty⦄ where
  abbrev pub run : Method → Write (Unit {0})
  run (stream_records id lines) = add_stream_records id lines >> pure tt
  run (stream_checkpoints id cps) = add_stream_checkpoints id cps
  run (rfc3161_token id token) = add_rfc3161_token id token
  run (qts_token day token) = add_qts_token day token
  run (anchor_proofs proofs) = add_anchor_proofs proofs
  run (identity pem rev roots) = add_identity pem rev roots
  run (vault_entry name bytes) = add_vault_entry name bytes

  -- the states that calls that succeed lead to
  pub data Reach (w : BundleWriter) : BundleWriter → Type 0 where
    here : Reach w w
    next : {u v : BundleWriter} (m : Method) → Reach w u → run m u ≡ (Result.ok tt, v) → Reach w v

  -- the states that any calls lead to, with or without an error
  pub data Tried (w : BundleWriter) : BundleWriter → Type 0 where
    start : Tried w w
    call : {u : BundleWriter} (m : Method) → Tried w u → Tried w (run m u).1
