-- ===== src/Checkpoint.antt =====
-- crates/evidence/src/checkpoint.rs: checkpoints over runs of records, and countersignatures.
pub mod Roots
pub mod Signed
use mathlib.Core.Option
use sealr_verify.Common.{
  ℕ, ◌+◌, ◌-◌, ◌%◌, ◌^◌, Bool, true, false, Option, none, some, List, [], ◌∷◌, map, ltb, ◌==◌,
  if◌then◌else◌, length,
}
use sealr_verify.Common.Text.{Bytes, Str, codes, str_eq}
use sealr_verify.Common.Result.{Result, ok, err, EvidenceError, checkpoint, collect, ◌>>=◌}
use sealr_verify.Deps.{Digests, Ed25519}
use sealr_verify.Hash.{hex_encode, hex_decode_digest, blake3_hex}
use sealr_verify.Merkle.{merkle_root}
use sealr_verify.Json.{Value, field, end, object, put_opt, text, u64}
use sealr_verify.Jcs.{to_jcs_bytes}
use sealr_verify.Record.Types.{Record}
use sealr_verify.Keys.{SigningKey, VerifyingKey, sign_jcs, verify_jcs}

pub record CheckpointNote : Type 0 where
  pub checkpoint_id : Str
  pub stream_id : Str
  pub segment_id : Str
  pub seq_from : ℕ
  pub seq_to : ℕ
  pub chain_head_hash : Str
  pub merkle_root : Str
  pub tree_size : ℕ
  pub ts_wall : Str
  pub recorder_cert_fingerprint : Str
  pub prev_checkpoint_hash : Option Str

pub record SignedCheckpoint : Type 0 where
  pub note : CheckpointNote
  pub signature : Str

pub record CountersignatureNote : Type 0 where
  pub checkpoint_id : Str
  pub received_at : Str
  pub console_key_id : Str
  pub stream_high_water_seq : Option ℕ

pub record Countersignature : Type 0 where
  pub note : CountersignatureNote
  pub signature : Str

-- the notes as `Serialize` writes them
unfoldable pub note_value : CheckpointNote → Value
note_value n = object (
    field (codes "checkpoint_id") (text n.checkpoint_id) (
      field (codes "stream_id") (text n.stream_id) (
        field (codes "segment_id") (text n.segment_id) (
          field (codes "seq_from") (u64 n.seq_from) (
            field (codes "seq_to") (u64 n.seq_to) (
              field (codes "chain_head_hash") (text n.chain_head_hash) (
                field (codes "merkle_root") (text n.merkle_root) (
                  field (codes "tree_size") (u64 n.tree_size) (
                    field (codes "ts_wall") (text n.ts_wall) (
                      field (codes "recorder_cert_fingerprint") (text n.recorder_cert_fingerprint) (
                        put_opt (codes "prev_checkpoint_hash")
                          (Option.map text n.prev_checkpoint_hash) end)))))))))))

unfoldable pub countersignature_value : CountersignatureNote → Value
countersignature_value n = object (
    field (codes "checkpoint_id") (text n.checkpoint_id) (
      field (codes "received_at") (text n.received_at) (
        field (codes "console_key_id") (text n.console_key_id)
          (put_opt (codes "stream_high_water_seq") (Option.map u64 n.stream_high_water_seq) end))))

-- `Vec::last`
abbrev pub last {ℓ} : {A : Type ℓ} → List A → Option A
last [] = none
last (x ∷ []) = some x
last (x ∷ y ∷ rest) = last (y ∷ rest)

-- the last of a list with a first element
abbrev pub last_of {ℓ} : {A : Type ℓ} → A → List A → A
last_of x [] = x
last_of x (y ∷ rest) = last_of y rest

-- `last.seq.checked_sub(first.seq).map(|d| d + 1)` is not the number of records
unfoldable pub not_contiguous : ℕ → ℕ → ℕ → Bool
not_contiguous size first_seq last_seq =
    if ltb last_seq first_seq
    then true
    else if size == ((last_seq - first_seq + 1) % 2 ^ 64)
    then false
    else true

abbrev pub hashes_of : List Record → List Str
hashes_of = map (λ r. r.record_hash)

-- the last comparison of `verify_root`
unfoldable pub check_head : Str → Option Str → Result EvidenceError (Unit {0})
check_head chain_head_hash none = err checkpoint
check_head chain_head_hash (some hash) =
    if str_eq hash chain_head_hash then ok tt else err checkpoint

module _ ⦃d : Digests⦄ where
  unfoldable pub note_hash : CheckpointNote → Result EvidenceError Str
  note_hash n = do bytes ← to_jcs_bytes (note_value n); ok (blake3_hex bytes)

  unfoldable pub merkle_root_of_record_hashes : List Str → Result EvidenceError Str
  merkle_root_of_record_hashes record_hashes_hex = do
    leaves ← collect hex_decode_digest record_hashes_hex
    ok (hex_encode (merkle_root leaves))

  unfoldable pub build_note : Str → List Record → Str → Str → Result EvidenceError CheckpointNote
  build_note checkpoint_id [] ts_wall recorder_cert_fingerprint = err checkpoint
  build_note checkpoint_id (first ∷ rest) ts_wall recorder_cert_fingerprint =
      let final = last_of first rest in
      if not_contiguous (length (first ∷ rest)) first.seq final.seq then err checkpoint else (do
        root ← merkle_root_of_record_hashes (hashes_of (first ∷ rest))
        ok (record {
          checkpoint_id = checkpoint_id;
          stream_id = first.stream_id;
          segment_id = first.segment_id;
          seq_from = first.seq;
          seq_to = final.seq;
          chain_head_hash = final.record_hash;
          merkle_root = root;
          tree_size = length (hashes_of (first ∷ rest));
          ts_wall = ts_wall;
          recorder_cert_fingerprint = recorder_cert_fingerprint;
          prev_checkpoint_hash = none;
        }))

  unfoldable pub build_note_linked :
      Str → List Record → Str → Str → Option Str → Result EvidenceError CheckpointNote
  build_note_linked checkpoint_id records ts_wall recorder_cert_fingerprint prev_checkpoint_hash =
      do
        note ← build_note checkpoint_id records ts_wall recorder_cert_fingerprint
        ok (record note { prev_checkpoint_hash = prev_checkpoint_hash })

  unfoldable pub verify_root : SignedCheckpoint → List Str → Result EvidenceError (Unit {0})
  verify_root s record_hashes_hex =
      if length record_hashes_hex == s.note.tree_size
      then (do
        root ← merkle_root_of_record_hashes record_hashes_hex
        (if str_eq root s.note.merkle_root
            then check_head s.note.chain_head_hash (last record_hashes_hex)
            else err checkpoint))
      else err checkpoint

module _ ⦃e : Ed25519⦄ ⦃d : Digests⦄ where
  unfoldable pub sign_note : CheckpointNote → SigningKey → Result EvidenceError SignedCheckpoint
  sign_note note k = do
    signature ← sign_jcs k (note_value note)
    ok (record { note = note; signature = signature })

  unfoldable pub verify : SignedCheckpoint → VerifyingKey → Result EvidenceError (Unit {0})
  verify s recorder_key = verify_jcs recorder_key (note_value s.note) s.signature

  unfoldable pub countersign :
      Str → Str → Str → Option ℕ → SigningKey → Result EvidenceError Countersignature
  countersign checkpoint_id received_at console_key_id stream_high_water_seq k =
      let note : CountersignatureNote = record {
        checkpoint_id = checkpoint_id;
        received_at = received_at;
        console_key_id = console_key_id;
        stream_high_water_seq = stream_high_water_seq;
      } in
      (do
        signature ← sign_jcs k (countersignature_value note)
        ok (record { note = note; signature = signature }))

  unfoldable pub verify_countersignature :
      Countersignature → VerifyingKey → Result EvidenceError (Unit {0})
  verify_countersignature c console_key =
      verify_jcs console_key (countersignature_value c.note) c.signature
