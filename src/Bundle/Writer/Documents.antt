-- ===== src/Bundle/Writer/Documents.antt =====
-- The other methods of the bundle writer: checkpoints, anchors, identity, vault, and the manifest.
use sealr_verify.Common.{
  Bool, true, false, ◌||◌, Option, none, some, List, [], ◌∷◌, ◌++◌, map, ◌==◌, if◌then◌else◌, ◌&&◌,
}
use sealr_verify.Common.Text.{Bytes, Str, codes, utf8}
use sealr_verify.Common.Result.{invalid}
use sealr_verify.Common.Run.{◌>>=◌, ◌>>◌, pure, lift, fail, gets, modify}
use sealr_verify.Deps.{Digests}
use sealr_verify.Deps.Archives.{Zips}
use sealr_verify.Jcs.{to_jcs_bytes}
use sealr_verify.Revocation.{SignedRevocationList}
use sealr_verify.Bundle.Anchors.{AnchorProofs}
use sealr_verify.Bundle.Types.{
  BundleCheckpoint, RootsFile, RecordIndexStream, stream_checkpoints_value, roots_value,
  revocations_value, proofs_value,
}
use sealr_verify.Bundle.Manifest.{ExportLevel, StreamScope, Manifest, manifest_value, jcs_hash}
use sealr_verify.Bundle.Writer.{
  or_zip, BundleWriter, Write, Pretty, checkpoints, anchors, identity, vault, finished,
  require_phase, start_file, write_all, write_entry, close_records, or_json, or_evidence,
  bundle_schema_version,
}
use sealr_verify.Bundle.Writer.Readme.{verify_md_template}

-- whether a text begins with another
unfoldable pub starts_with : Str → Str → Bool
starts_with [] s = true
starts_with (c ∷ p) [] = false
starts_with (c ∷ p) (e ∷ s) = c == e && starts_with p s

-- `str::contains`
unfoldable pub contains : Str → Str → Bool
unfolding starts_with
contains p [] = starts_with p []
contains p (c ∷ s) = starts_with p (c ∷ s) || contains p s

-- `name.contains("..") || name.starts_with('/')`
unfoldable pub invalid_vault_name : Str → Bool
invalid_vault_name name = contains (codes "..") name || starts_with (codes "/") name

abbrev pub stream_scope : RecordIndexStream → StreamScope
stream_scope s = record {
  stream_id = s.stream_id;
  seq_from = s.seq_from;
  seq_to = s.seq_to;
  record_count = s.record_count;
}

module _ ⦃z : Zips⦄ where
  -- the manifest that `finish` writes
  unfoldable pub manifest_of :
      BundleWriter → ExportLevel → Option Str → Option Str → List Str → Manifest
  manifest_of w level ts_from ts_to resources = record {
    schema_version = bundle_schema_version;
    bundle_id = w.bundle_id;
    created_at = w.created_at;
    tool = w.tool;
    scope = record {
      level = level;
      ts_from = ts_from;
      ts_to = ts_to;
      resources = resources;
      streams = map stream_scope w.index.streams;
    };
    contents = w.contents;
  }

  -- `self.zip.finish()?`; the writer is gone afterwards
  unfoldable pub finish_zip : Write z.Target
  finish_zip w = (or_zip (z.finish w.zip_writer), w)

module _ ⦃z : Zips⦄ ⦃p : Pretty⦄ ⦃d : Digests⦄ where
  unfoldable pub add_stream_checkpoints : Str → List BundleCheckpoint → Write (Unit {0})
  add_stream_checkpoints stream_id cps = do
    close_records
    require_phase checkpoints checkpoints
    bytes ← lift (
        or_json (
          p.to_vec_pretty
            (stream_checkpoints_value (record { stream_id = stream_id; checkpoints = cps }))))
    write_entry (codes "checkpoints/" ++ (stream_id ++ codes ".json")) bytes

  unfoldable pub add_rfc3161_token : Str → Bytes → Write (Unit {0})
  add_rfc3161_token batch_id token_der = do
    close_records
    require_phase anchors anchors
    write_entry (codes "anchors/rfc3161/" ++ (batch_id ++ codes ".tsr")) token_der

  unfoldable pub add_qts_token : Str → Bytes → Write (Unit {0})
  add_qts_token day token_der = do
    close_records
    require_phase anchors anchors
    write_entry (codes "anchors/qts/" ++ (day ++ codes ".der")) token_der

  unfoldable pub add_anchor_proofs : AnchorProofs → Write (Unit {0})
  add_anchor_proofs proofs = do
    close_records
    require_phase anchors anchors
    bytes ← lift (or_json (p.to_vec_pretty (proofs_value proofs)))
    write_entry (codes "anchors/proofs.json") bytes

  -- `if let Some(rev) = revocations`
  unfoldable pub add_revocations : Option SignedRevocationList → Write (Unit {0})
  add_revocations none = pure tt
  add_revocations (some rev) = do
    bytes ← lift (or_json (p.to_vec_pretty (revocations_value rev)))
    write_entry (codes "identity/revocations.json") bytes

  unfoldable pub add_identity : Str → Option SignedRevocationList → RootsFile → Write (Unit {0})
  add_identity certs_pem revocations roots = do
    close_records
    require_phase anchors identity
    write_entry (codes "identity/certs.pem") (utf8 certs_pem)
    add_revocations revocations
    bytes ← lift (or_json (p.to_vec_pretty (roots_value roots)))
    write_entry (codes "identity/roots.json") bytes

  unfoldable pub add_vault_entry : Str → Bytes → Write (Unit {0})
  add_vault_entry name bytes = do
    require_phase vault vault
    (if invalid_vault_name name then fail invalid else write_entry (codes "vault/" ++ name) bytes)

  -- the last lines of `finish`: the manifest, which is not an entry of its own contents
  unfoldable pub write_manifest : Manifest → Write (Manifest × Str × z.Target)
  write_manifest manifest = do
    hash ← lift (or_evidence (jcs_hash manifest))
    manifest_bytes ← lift (or_evidence (to_jcs_bytes (manifest_value manifest)))
    start_file (codes "manifest.json")
    write_all manifest_bytes
    modify (λ w. record w { phase = finished })
    target ← finish_zip
    pure (manifest, hash, target)

  unfoldable pub finish :
      ExportLevel → Option Str → Option Str → List Str → Write (Manifest × Str × z.Target)
  finish level ts_from ts_to resources = do
    close_records
    tool ← gets (λ w. w.tool)
    write_entry (codes "VERIFY.md") (utf8 (verify_md_template tool))
    manifest ← gets (λ w. manifest_of w level ts_from ts_to resources)
    write_manifest manifest
