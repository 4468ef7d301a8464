-- ===== src/Bundle/Types.antt =====
-- crates/bundle/src/types.rs: the documents of a bundle, and the values that they are written as.
use mathlib.Core.Option
use sealr_verify.Common.{ℕ, Option, none, some, List, [], ◌∷◌, map}
use sealr_verify.Common.Text.{Str, codes}
use sealr_verify.Json.{Value, bool, object, array, items, field, end, put_opt, strings, text, u64}
use sealr_verify.Checkpoint.{SignedCheckpoint, Countersignature, note_value, countersignature_value}
use sealr_verify.Revocation.{SignedRevocationList, list_value}
use sealr_verify.Bundle.Anchors.{
  StoredProofStep, CheckpointInclusion, AnchorBatch, DailyRoot, AnchorProofs,
}

pub record BundleCheckpoint : Type 0 where
  pub checkpoint : SignedCheckpoint
  pub countersignature : Option Countersignature

pub record StreamCheckpoints : Type 0 where
  pub stream_id : Str
  pub checkpoints : List BundleCheckpoint

pub record RecordIndexStream : Type 0 where
  pub stream_id : Str
  pub shards : List Str
  pub seq_from : ℕ
  pub seq_to : ℕ
  pub record_count : ℕ

pub record RecordIndex : Type 0 where
  pub streams : List RecordIndexStream

pub record TrustedRoot : Type 0 where
  pub name : Str
  pub cert_pem : Str

pub record ConsoleKeyStatement : Type 0 where
  pub key_id : Str
  pub public_key_pem : Str
  pub not_before : Str
  pub not_after : Str

pub record AttestedConsoleKey : Type 0 where
  pub statement : ConsoleKeyStatement
  pub signature : Option Str
  pub root_name : Option Str

pub record RootsFile : Type 0 where
  pub roots : List TrustedRoot
  pub console_keys : List AttestedConsoleKey

pub record BundleIdentity : Type 0 where
  pub certs_pem : Str
  pub revocations : Option SignedRevocationList
  pub roots : RootsFile

-- a list under `skip_serializing_if = "Vec::is_empty"`
abbrev pub non_empty {ℓ} : {A : Type ℓ} → (A → Value) → List A → Option Value
non_empty f [] = none
non_empty f (x ∷ l) = some (array (items (map f (x ∷ l))))

-- a struct that is a note with a signature
signed_value : Value → Str → Value
signed_value note signature =
    object (field (codes "note") note (field (codes "signature") (text signature) end))

signed_checkpoint_value : SignedCheckpoint → Value
unfolding signed_value
signed_checkpoint_value c = signed_value (note_value c.note) c.signature

signed_countersignature_value : Countersignature → Value
unfolding signed_value
signed_countersignature_value c = signed_value (countersignature_value c.note) c.signature

bundle_checkpoint_value : BundleCheckpoint → Value
unfolding signed_checkpoint_value signed_countersignature_value
bundle_checkpoint_value b = object (
    field (codes "checkpoint") (signed_checkpoint_value b.checkpoint) (
      put_opt (codes "countersignature")
        (Option.map signed_countersignature_value b.countersignature) end))

unfoldable pub stream_checkpoints_value : StreamCheckpoints → Value
unfolding bundle_checkpoint_value
stream_checkpoints_value s = object (
    field (codes "stream_id") (text s.stream_id)
      (field (codes "checkpoints") (array (items (map bundle_checkpoint_value s.checkpoints))) end))

index_stream_value : RecordIndexStream → Value
index_stream_value s = object (
    field (codes "stream_id") (text s.stream_id) (
      field (codes "shards") (strings s.shards) (
        field (codes "seq_from") (u64 s.seq_from) (
          field (codes "seq_to") (u64 s.seq_to)
            (field (codes "record_count") (u64 s.record_count) end)))))

unfoldable pub index_value : RecordIndex → Value
unfolding index_stream_value
index_value x =
    object (field (codes "streams") (array (items (map index_stream_value x.streams))) end)

root_value : TrustedRoot → Value
root_value r =
    object (field (codes "name") (text r.name) (field (codes "cert_pem") (text r.cert_pem) end))

unfoldable pub statement_value : ConsoleKeyStatement → Value
statement_value s = object (
    field (codes "key_id") (text s.key_id) (
      field (codes "public_key_pem") (text s.public_key_pem) (
        field (codes "not_before") (text s.not_before)
          (field (codes "not_after") (text s.not_after) end))))

console_key_value : AttestedConsoleKey → Value
unfolding statement_value
console_key_value k = object (
    field (codes "statement") (statement_value k.statement) (
      put_opt (codes "signature") (Option.map text k.signature)
        (put_opt (codes "root_name") (Option.map text k.root_name) end)))

unfoldable pub roots_value : RootsFile → Value
unfolding root_value console_key_value
roots_value f = object (
    field (codes "roots") (array (items (map root_value f.roots)))
      (put_opt (codes "console_keys") (non_empty console_key_value f.console_keys) end))

unfoldable pub revocations_value : SignedRevocationList → Value
revocations_value s = object (
    field (codes "list") (list_value s.list) (
      field (codes "console_key_id") (text s.console_key_id)
        (field (codes "signature") (text s.signature) end)))

proof_step_value : StoredProofStep → Value
proof_step_value s =
    object (field (codes "sibling") (text s.sibling) (field (codes "left") (bool s.left) end))

inclusion_value : CheckpointInclusion → Value
unfolding proof_step_value
inclusion_value x = object (
    field (codes "checkpoint_id") (text x.checkpoint_id) (
      field (codes "leaf") (text x.leaf) (
        field (codes "leaf_index") (u64 x.leaf_index) (
          field (codes "tree_size") (u64 x.tree_size)
            (field (codes "proof") (array (items (map proof_step_value x.proof))) end)))))

batch_value : AnchorBatch → Value
unfolding inclusion_value
batch_value b = object (
    field (codes "batch_id") (text b.batch_id) (
      field (codes "created_at") (text b.created_at) (
        field (codes "root_blake3") (text b.root_blake3) (
          field (codes "root_sha256") (text b.root_sha256) (
            put_opt (codes "tsr_file") (Option.map text b.tsr_file) (
              field (codes "qualified") (bool b.qualified) (
                field (codes "checkpoints") (array (items (map inclusion_value b.checkpoints)))
                  end)))))))

unfoldable pub daily_value : DailyRoot → Value
daily_value r = object (
    field (codes "day") (text r.day) (
      field (codes "root_blake3") (text r.root_blake3) (
        field (codes "root_sha256") (text r.root_sha256) (
          put_opt (codes "prev_day_hash") (Option.map text r.prev_day_hash) (
            field (codes "batch_roots") (strings r.batch_roots) (
              put_opt (codes "qts_file") (Option.map text r.qts_file) (
                put_opt (codes "signature") (Option.map text r.signature)
                  (put_opt (codes "console_key_id") (Option.map text r.console_key_id) end))))))))

unfoldable pub proofs_value : AnchorProofs → Value
unfolding batch_value daily_value
proofs_value p = object (
    field (codes "batches") (array (items (map batch_value p.batches)))
      (field (codes "daily") (array (items (map daily_value p.daily))) end))
