-- ===== src/Engine/Checkpoints.antt =====
-- `verify_checkpoints`: signatures, revocation, forks, roots and countersignatures of the
-- checkpoints of a stream.
pub mod Attested
pub mod Kept
pub mod Sources
pub mod Refused
use sealr_verify.Bundle.Types.{BundleCheckpoint}
use sealr_verify.Common.{
  ℕ, zero, suc, ◌+◌, ◌-◌, ◌%◌, ◌^◌, ◌&&◌, ◌||◌, Bool, true, false, not, Option, none, some, List,
  [], ◌∷◌, ◌++◌, ltb, leb, ◌==◌, if◌then◌else◌, length,
}
use sealr_verify.Common.Text.{Bytes, Str, codes, str_eq}
use sealr_verify.Common.Result.{Result, ok, err, EvidenceError}
use sealr_verify.Deps.{Digests, Ed25519, Chrono}
use sealr_verify.Hash.{blake3_raw}
use sealr_verify.Jcs.{to_jcs_bytes}
use sealr_verify.Record.{parse_wall}
use sealr_verify.Keys.{VerifyingKey}
use sealr_verify.Certs.{ValidatedCert}
use sealr_verify.Revocation.{SignedRevocationList, is_revoked_at}
use sealr_verify.Checkpoint.{
  CheckpointNote, SignedCheckpoint, Countersignature, note_value, note_hash, verify, verify_root,
  verify_countersignature,
}
use sealr_verify.Report.{Severity, info, warning, error, Finding}
use sealr_verify.Engine.{SeqMap, seq_get, str_get, str_insert, add_seq, add_str, StreamData, add_at}

-- The arguments that stay the same: the certificates that were validated, by fingerprint, the
-- revocations and the console's keys.
pub record Trust : Type 0 where
  pub stream_id : Str
  pub cert_map : List (Str × ValidatedCert)
  pub revocations : Option SignedRevocationList
  pub console_keys : List (Str × VerifyingKey)

-- (from, to, root, id) of a checkpoint that was looked at
abbrev pub Range : Type 0
Range = ℕ × ℕ × Str × Str

-- what the loop changes
pub record Progress : Type 0 where
  pub findings : List Finding
  pub stream_data : StreamData
  pub ranges : List Range

-- a finding for the stream
abbrev pub report : Trust → Severity → Str → Progress → Progress
report t severity class p = record p {
  findings = add_at severity class t.stream_id none p.findings;
}

abbrev pub is_ok : Result EvidenceError (Unit {0}) → Bool
is_ok (ok x) = true
is_ok (err e) = false

-- `seq_from..=seq_to` by its first number and its size
abbrev pub range_size : ℕ → ℕ → ℕ
range_size from to = to + 1 - from

-- `map_while` over `n` numbers from `s`
unfoldable pub covered_from : SeqMap → ℕ → ℕ → List Str
covered_from hashes zero s = []
covered_from hashes (suc n) s =
    let rest = covered_from hashes n (s + 1) in
    elim (seq_get s hashes) [ none ↦ [] | some h ↦ h ∷ rest ]

-- the record hashes that a note covers, as far as they are there
abbrev pub covered : SeqMap → CheckpointNote → List Str
covered hashes note = covered_from hashes (range_size note.seq_from note.seq_to) note.seq_from

-- the loop that inserts `n` numbers from `s`
unfoldable pub add_range : ℕ → ℕ → List ℕ → List ℕ
add_range zero s l = l
add_range (suc n) s l = add_range n (s + 1) (add_seq s l)

-- `note.seq_to - note.seq_from + 1` in u64; a release build wraps around
abbrev pub expected_count : CheckpointNote → ℕ
expected_count note = (note.seq_to + 2 ^ 64 - note.seq_from + 1) % 2 ^ 64

-- a checkpoint over the same numbers with another root
unfoldable pub is_fork : CheckpointNote → Range → Bool
is_fork note r =
    (leb note.seq_from r.1 && leb r.0 note.seq_to)
    && ((r.0 == note.seq_from) && (r.1 == note.seq_to) && not (str_eq r.2 note.merkle_root))

unfoldable pub fork_findings : Trust → CheckpointNote → List Range → Progress → Progress
fork_findings t note [] p = p
fork_findings t note (r ∷ rs) p =
    fork_findings t note rs
      (if is_fork note r then report t error (codes "chain_fork_detected") p else p)

-- `is_none_or(|c| hw > c)` and the assignment
unfoldable pub raise_high_water : Option ℕ → Option ℕ → Option ℕ
raise_high_water none current = current
raise_high_water (some hw) none = some hw
raise_high_water (some hw) (some c) = if ltb c hw then some hw else some c

unfoldable pub raise_top : Str → ℕ → Option (Str × ℕ) → Option (Str × ℕ)
raise_top cp_id seq_to none = some (cp_id, seq_to)
raise_top cp_id seq_to (some top) = if ltb top.1 seq_to then some (cp_id, seq_to) else some top

abbrev pub push_link : Str → Option Str → List (Str × Str) → List (Str × Str)
push_link cp_id none links = links
push_link cp_id (some prev) links = links ++ (cp_id, prev) ∷ []

abbrev pub if_ok {ℓ κ} : {A : Type ℓ} {B : Type κ} → Result EvidenceError A → (A → B → B) → B → B
if_ok (ok a) f b = f a b
if_ok (err e) f b = b

module _ ⦃e : Ed25519⦄ ⦃d : Digests⦄ where
  -- `console_keys.values().any(|k| cs.verify(k).is_ok())`
  unfoldable pub any_key : Countersignature → List (Str × VerifyingKey) → Bool
  any_key cs [] = false
  any_key cs (k ∷ keys) = is_ok (verify_countersignature cs k.1) || any_key cs keys

  -- what is kept of a checkpoint that was not passed over
  unfoldable pub keep : CheckpointNote → StreamData → StreamData
  keep note stream_data = record stream_data {
    checkpoint_digests =
        if_ok (to_jcs_bytes (note_value note))
          (λ jcs. str_insert note.checkpoint_id (blake3_raw jcs)) stream_data.checkpoint_digests;
    checkpoint_note_hashes = if_ok (note_hash note) add_str stream_data.checkpoint_note_hashes;
    checkpoint_links =
        push_link note.checkpoint_id note.prev_checkpoint_hash stream_data.checkpoint_links;
    top_checkpoint = raise_top note.checkpoint_id note.seq_to stream_data.top_checkpoint;
    valid_checkpoint_ranges =
        str_insert note.checkpoint_id (note.seq_from, note.seq_to)
          stream_data.valid_checkpoint_ranges;
  }

  abbrev pub kept : CheckpointNote → Progress → Progress
  kept note p = record p { stream_data = keep note p.stream_data }

  -- the stream_data after a countersignature that verifies
  abbrev pub countersigned : Str → Countersignature → StreamData → StreamData
  countersigned cp_id cs stream_data = record stream_data {
    countersigned_checkpoints = add_str cp_id stream_data.countersigned_checkpoints;
    countersigned_high_water =
        raise_high_water cs.note.stream_high_water_seq stream_data.countersigned_high_water;
  }

  -- from the countersignature to the end of the turn
  unfoldable pub check_countersignature :
      Trust → CheckpointNote → Option Countersignature → Progress → Progress
  check_countersignature t note none p = kept note (report t info (codes "not_countersigned") p)
  check_countersignature t note (some cs) p =
      if any_key cs t.console_keys
      then kept note (record p { stream_data = countersigned note.checkpoint_id cs p.stream_data })
      else if length t.console_keys == 0
      then kept note (report t warning (codes "countersignature_unverifiable") p)
      else report t error (codes "countersignature_invalid") p

  -- from the root to the end of the turn
  unfoldable pub check_root : Trust → BundleCheckpoint → Progress → Progress
  check_root t bc p =
      let note = bc.checkpoint.note in
      let hashes = covered p.stream_data.hashes_by_seq note in
      if length hashes == expected_count note
      then (if is_ok (verify_root bc.checkpoint hashes)
          then check_countersignature t note bc.countersignature (record p {
            stream_data = record p.stream_data {
              attested_seqs =
                  add_range (range_size note.seq_from note.seq_to) note.seq_from
                    p.stream_data.attested_seqs;
            };
          })
          else report t error (codes "checkpoint_root_mismatch") p)
      else check_countersignature t note bc.countersignature
          (report t info (codes "checkpoint_range_not_fully_exported") p)

  -- forks, and what follows
  unfoldable pub check_fork : Trust → BundleCheckpoint → Progress → Progress
  check_fork t bc p =
      let note = bc.checkpoint.note in
      let q = fork_findings t note p.ranges p in
      check_root t bc (record q {
        ranges =
            q.ranges ++ (note.seq_from, note.seq_to, note.merkle_root, note.checkpoint_id) ∷ [];
      })

-- the revocations and the parsed time of the note
unfoldable pub revoked_at : ⦃c : Chrono⦄ → Option SignedRevocationList → Str → Option ℕ → Bool
revoked_at none fingerprint at = false
revoked_at (some rev) fingerprint none = false
revoked_at (some rev) fingerprint (some ts) = is_revoked_at rev fingerprint ts

module _ ⦃e : Ed25519⦄ ⦃d : Digests⦄ ⦃c : Chrono⦄ where
  -- with the recorder's certificate
  unfoldable pub check_signed : Trust → BundleCheckpoint → VerifyingKey → Progress → Progress
  check_signed t bc public_key p =
      let note = bc.checkpoint.note in
      if is_ok (verify bc.checkpoint public_key)
      then (if revoked_at t.revocations note.recorder_cert_fingerprint (parse_wall note.ts_wall)
          then report t error (codes "checkpoint_after_revocation") p
          else check_fork t bc p)
      else report t error (codes "checkpoint_signature_invalid") p

  abbrev pub check_cert : Trust → BundleCheckpoint → Option ValidatedCert → Progress → Progress
  check_cert t bc none p = report t error (codes "checkpoint_cert_unknown") p
  check_cert t bc (some cert) p = check_signed t bc cert.public_key p

  -- one turn of the loop
  unfoldable pub check_one : Trust → BundleCheckpoint → Progress → Progress
  check_one t bc p =
      let note = bc.checkpoint.note in
      if str_eq note.stream_id t.stream_id
      then check_cert t bc (str_get note.recorder_cert_fingerprint t.cert_map) p
      else report t error (codes "checkpoint_stream_mismatch") p

  -- the loop over the checkpoints
  unfoldable pub check_all : Trust → List BundleCheckpoint → Progress → Progress
  check_all t [] p = p
  check_all t (bc ∷ rest) p = check_all t rest (check_one t bc p)

  unfoldable pub verify_checkpoints :
      Trust → List BundleCheckpoint → List Finding → StreamData → List Finding × StreamData
  unfolding check_all
  verify_checkpoints t checkpoints findings stream_data =
      let p =
        check_all t checkpoints
          (record { findings = findings; stream_data = stream_data; ranges = [] }) in
      (p.findings, p.stream_data)
