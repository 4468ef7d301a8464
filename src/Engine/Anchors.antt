-- ===== src/Engine/Anchors.antt =====
-- crates/verify/src/engine.rs: `verify_anchors`, which binds checkpoints to timestamps.
pub mod Anchored
pub mod Days
pub mod Timed
use sealr_verify.Common.{
  ℕ, zero, suc, ◌+◌, ◌&&◌, ◌||◌, Bool, true, false, not, Option, none, some, List, [], ◌∷◌, ◌++◌,
  length, ◌==◌, if◌then◌else◌,
}
use sealr_verify.Common.Text.{Bytes, Str, codes, str_eq}
use sealr_verify.Common.Result.{
  Result, ok, err, EvidenceError, BundleError, invalid_hex, ◌>>=◌, collect,
}
use sealr_verify.Deps.{Digests, Ed25519}
use sealr_verify.Deps.Tokens.{Tokens}
use sealr_verify.Hash.{hex_encode, hex_decode, hex_decode_digest, try_into, sha256_hex, sha256_raw}
use sealr_verify.Merkle.{merkle_root}
use sealr_verify.Keys.{VerifyingKey, verify_jcs}
use sealr_verify.Tsa.{TsaError, VerifiedToken, verify_token}
use sealr_verify.Bundle.Anchors.{
  AnchorBatch, AnchorProofs, CheckpointInclusion, DailyRoot, verify_inclusion,
}
use sealr_verify.Bundle.Types.{daily_value}
use sealr_verify.Report.{Severity, info, warning, error, Finding}
use sealr_verify.Engine.{str_get, has_seq, add_seq, StreamData}
use sealr_verify.Engine.Trust.{add}
use sealr_verify.Engine.Stream.{earlier}
use sealr_verify.Engine.Identity.{KeyMap, succeeds}
use sealr_verify.Engine.Checkpoints.{range_size}

-- A `BTreeMap<String, StreamData>` by its entries in the order of the keys.
abbrev pub Streams : Type 0
Streams = List (Str × StreamData)

-- what the loops change
pub record Anchoring : Type 0 where
  pub findings : List Finding
  pub streams : Streams
  pub earliest : Option Str

abbrev pub note_finding : Severity → Str → Anchoring → Anchoring
note_finding severity class a = record a { findings = add severity class a.findings }

-- the first stream with a checkpoint of this name, and its digest
unfoldable pub find_digest : Str → Streams → Option (Str × Bytes)
find_digest cp_id [] = none
find_digest cp_id (s ∷ streams) =
    let rest = find_digest cp_id streams in
    elim (str_get cp_id s.1.checkpoint_digests) [ none ↦ rest | some digest ↦ some (s.0, digest) ]

-- `unwrap_or([0u8; 32])`
abbrev pub or_zeros : Result EvidenceError Bytes → Bytes
or_zeros (ok bytes) = bytes
or_zeros (err problem) =
    0 ∷ 0 ∷ 0 ∷ 0 ∷ 0 ∷ 0 ∷ 0 ∷ 0 ∷ 0 ∷ 0 ∷ 0 ∷ 0 ∷ 0 ∷ 0 ∷ 0 ∷ 0 ∷ 0 ∷ 0 ∷ 0 ∷ 0 ∷ 0 ∷ 0 ∷ 0 ∷ 0
    ∷ 0 ∷ 0 ∷ 0 ∷ 0 ∷ 0 ∷ 0 ∷ 0 ∷ 0 ∷ []

-- the findings, and (stream, checkpoint) for what is included
abbrev pub Included : Type 0
Included = List Finding × List (Str × Str)

-- the digest that was found, if there is one
unfoldable pub compare_leaf : CheckpointInclusion → Option (Str × Bytes) → Included → Included
compare_leaf inc none s = (add info (codes "anchor_checkpoint_not_in_export") s.0, s.1)
compare_leaf inc (some found) s =
    if str_eq (or_zeros (hex_decode_digest inc.leaf)) found.1
    then (s.0, s.1 ++ (found.0, inc.checkpoint_id) ∷ [])
    else (add error (codes "anchor_leaf_mismatch") s.0, s.1)

-- an inclusion whose proof is valid
unfoldable pub match_leaf : Streams → CheckpointInclusion → Included → Included
match_leaf streams inc s = compare_leaf inc (find_digest inc.checkpoint_id streams) s

-- the loop over the numbers of a range
unfoldable pub anchor_range : List ℕ → ℕ → ℕ → List ℕ → List ℕ
anchor_range attested zero s anchored = anchored
anchor_range attested (suc n) s anchored =
    anchor_range attested n (s + 1) (if has_seq s attested then add_seq s anchored else anchored)

abbrev pub anchor_ranges : Option (ℕ × ℕ) → StreamData → StreamData
anchor_ranges none stream_data = stream_data
anchor_ranges (some range) stream_data = record stream_data {
  anchored_seqs =
      anchor_range stream_data.attested_seqs (range_size range.0 range.1) range.0
        stream_data.anchored_seqs;
}

-- `get_mut` and what is done with the stream
unfoldable pub mark : Str → Str → Streams → Streams
mark stream_id cp_id [] = []
mark stream_id cp_id (s ∷ streams) =
    if str_eq s.0 stream_id
    then (s.0, anchor_ranges (str_get cp_id s.1.valid_checkpoint_ranges) s.1) ∷ streams
    else s ∷ mark stream_id cp_id streams

-- the loop over what is included
unfoldable pub mark_all : List (Str × Str) → Streams → Streams
mark_all [] streams = streams
mark_all (b ∷ batch) streams = mark_all batch (mark b.0 b.1 streams)

-- the digest that the token must bind
unfoldable pub imprint_of : Str → Result EvidenceError Bytes
imprint_of root_sha256 = do v ← hex_decode root_sha256; try_into 32 invalid_hex v

-- one inclusion, by the outcome of its proof
unfoldable pub add_inclusion :
    Streams → CheckpointInclusion → Result EvidenceError (Unit {0}) → Included → Included
add_inclusion streams inc (err problem) s = (add error (codes "anchor_inclusion_invalid") s.0, s.1)
add_inclusion streams inc (ok u) s = match_leaf streams inc s

module _ ⦃d : Digests⦄ where
  -- the loop over the inclusions of a batch
  unfoldable pub check_inclusions : Streams → Str → List CheckpointInclusion → Included → Included
  check_inclusions streams root [] s = s
  check_inclusions streams root (inc ∷ incs) s =
      check_inclusions streams root incs (add_inclusion streams inc (verify_inclusion inc root) s)

-- `reader.entry_bytes`
module _ ⦃d : Digests⦄ ⦃t : Tokens⦄ (entry_bytes : Str → Result BundleError Bytes) where
  -- a token that verifies, or not
  unfoldable pub accept_batch :
      List (Str × Str) → Result TsaError VerifiedToken → Anchoring → Anchoring
  accept_batch included (err problem) a = note_finding error (codes "anchor_invalid") a
  accept_batch included (ok token) a = note_finding info (codes "anchor_verified") (record a {
    streams = mark_all included a.streams;
    earliest = earlier (some token.gen_time) a.earliest;
  })

  -- a batch that has a token
  unfoldable pub check_token : Str → Str → List (Str × Str) → Anchoring → Anchoring
  check_token root_sha256 path included a = elim (imprint_of root_sha256) [
    | err problem ↦ a
    | ok sha ↦ elim (entry_bytes path) [
      | err problem ↦ note_finding error (codes "anchor_token_missing") a
      | ok bytes ↦ accept_batch included (verify_token bytes sha) a
    ]
  ]

  unfoldable pub check_batch_token :
      AnchorBatch → Option Str → List (Str × Str) → Anchoring → Anchoring
  check_batch_token batch none included a = note_finding warning (codes "anchor_pending") a
  check_batch_token batch (some path) included a = check_token batch.root_sha256 path included a

  -- a batch whose two roots belong together
  unfoldable pub check_bound_batch : AnchorBatch → Anchoring → Anchoring
  check_bound_batch batch a =
      let included =
        check_inclusions a.streams batch.root_blake3 batch.checkpoints (a.findings, []) in
      check_batch_token batch batch.tsr_file included.1 (record a { findings = included.0 })

  -- one turn of the loop over the batches
  unfoldable pub check_batch : AnchorBatch → Anchoring → Anchoring
  check_batch batch a = elim (hex_decode_digest batch.root_blake3) [
    | err problem ↦ note_finding error (codes "anchor_invalid") a
    | ok root_raw ↦
        if str_eq (sha256_hex root_raw) batch.root_sha256
        then check_bound_batch batch a
        else note_finding error (codes "anchor_digest_binding_broken") a
  ]

  unfoldable pub check_batches : List AnchorBatch → Anchoring → Anchoring
  check_batches [] a = a
  check_batches (batch ∷ batches) a = check_batches batches (check_batch batch a)

  -- the qualified timestamp of a day
  unfoldable pub accept_day : Result TsaError VerifiedToken → Anchoring → Anchoring
  accept_day (err problem) a = note_finding error (codes "qts_invalid") a
  accept_day (ok token) a =
      note_finding info (codes "qts_verified")
        (record a { earliest = earlier (some token.gen_time) a.earliest })

  unfoldable pub read_qts : Bytes → Result BundleError Bytes → Anchoring → Anchoring
  read_qts sha (err problem) a = note_finding error (codes "qts_token_missing") a
  read_qts sha (ok bytes) a = accept_day (verify_token bytes sha) a

  unfoldable pub bind_qts : Str → Result EvidenceError Bytes → Anchoring → Anchoring
  bind_qts qts (err problem) a = a
  bind_qts qts (ok root_raw) a = read_qts (sha256_raw root_raw) (entry_bytes qts) a

  unfoldable pub check_qts : Str → Option Str → Anchoring → Anchoring
  check_qts root_blake3 none a = a
  check_qts root_blake3 (some qts) a = bind_qts qts (hex_decode_digest root_blake3) a

  module _ ⦃e : Ed25519⦄ where
    -- whether one of the console's keys signed the day, less its signature
    unfoldable pub any_day_key : DailyRoot → Str → KeyMap → Bool
    any_day_key day sig [] = false
    any_day_key day sig (k ∷ keys) =
        succeeds (verify_jcs k.1 (daily_value (record day { signature = none })) sig)
        || any_day_key day sig keys

    unfoldable pub check_day_signature :
        KeyMap → DailyRoot → Option Str → Option Str → Anchoring → Anchoring
    check_day_signature console_keys day none key_id a = a
    check_day_signature console_keys day (some sig) none a = a
    check_day_signature console_keys day (some sig) (some key_id) a =
        if not (any_day_key day sig console_keys) && not (length console_keys == 0)
        then note_finding error (codes "daily_root_signature_invalid") a
        else a

    -- a day by the roots of its batches
    unfoldable pub check_day_roots :
        KeyMap → DailyRoot → Result EvidenceError (List Bytes) → Anchoring → Anchoring
    check_day_roots console_keys day (err problem) a =
        note_finding error (codes "daily_root_invalid") a
    check_day_roots console_keys day (ok leaves) a =
        if str_eq (hex_encode (merkle_root leaves)) day.root_blake3
        then check_qts day.root_blake3 day.qts_file
            (check_day_signature console_keys day day.signature day.console_key_id a)
        else note_finding error (codes "daily_root_mismatch") a

    -- one turn of the loop over the days
    unfoldable pub check_day : KeyMap → DailyRoot → Anchoring → Anchoring
    check_day console_keys day a =
        check_day_roots console_keys day (collect hex_decode_digest day.batch_roots) a

    unfoldable pub check_days : KeyMap → List DailyRoot → Anchoring → Anchoring
    check_days console_keys [] a = a
    check_days console_keys (day ∷ days) a =
        check_days console_keys days (check_day console_keys day a)

    unfoldable pub verify_anchors : AnchorProofs → KeyMap → List Finding → Streams → Anchoring
    verify_anchors proofs console_keys findings streams = check_days console_keys proofs.daily (
        check_batches proofs.batches
          (record { findings = findings; streams = streams; earliest = none }))
