-- ===== src/Chain/Verifier.antt =====
-- `StreamVerifier`: findings for each record of a stream, in file order.
use sealr_verify.Common.{
  ℕ, ◌+◌, ◌/◌, ◌^◌, ◌&&◌, Bool, true, false, not, Option, none, some, List, [], ◌∷◌, ◌++◌, ltb, leb,
  ◌==◌, if◌then◌else◌,
}
use sealr_verify.Common.Int.{ℤ, sub_ℕ}
use sealr_verify.Common.Text.{Str, codes, str_eq}
use sealr_verify.Common.Result.{Result, ok, err, EvidenceError, schema, ◌>>=◌}
use sealr_verify.Deps.{Digests, Ulids, Chrono}
use sealr_verify.Json.{Value}
use sealr_verify.Record.{
  genesis_prev_hash, segment_break_prev_hash, compute_hash_of_value, parse_wall,
}
use sealr_verify.Chain.View.{RecordView, from_value}

abbrev pub wall_tolerance_ms : ℕ
wall_tolerance_ms = 2_000

pub data ChainFinding : Type 0 where
  record_hash_mismatch : (seq : ℕ) (expected computed : Str) → ChainFinding
  link_broken : (seq : ℕ) (expected found : Str) → ChainFinding
  seq_gap_in_segment : (segment_id : Str) (expected found : ℕ) → ChainFinding
  seq_not_monotonic : (prev found : ℕ) → ChainFinding
  mono_regression : (seq prev_ns found_ns : ℕ) → ChainFinding
  wall_regression : (seq : ℕ) (delta_ms : ℤ) → ChainFinding
  genesis_violation : (found expected : Str) → ChainFinding
  segment_break : (segment_id : Str) (seq : ℕ) → ChainFinding
  stream_mismatch : (seq : ℕ) (found_stream : Str) → ChainFinding
  bad_wall_timestamp : (seq : ℕ) (value : Str) → ChainFinding

pub record StreamVerifier : Type 0 where
  pub stream_id : Str
  pub genesis : Str
  pub prev : Option RecordView
  pub prev_wall_ms : Option ℕ
  pub records_verified : ℕ

-- a finding where the test holds
abbrev pub when : Bool → ChainFinding → List ChainFinding
when true f = f ∷ []
when false f = []

-- `DateTime::timestamp_millis`, from the same origin as the nanoseconds
abbrev pub timestamp_millis : ℕ → ℕ
timestamp_millis t = t / 10 ^ 6

abbrev pub last_wall : Option ℕ → Option ℕ → Option ℕ
last_wall none last = last
last_wall (some wall) last = some (timestamp_millis wall)

abbrev pub clock_anomaly : Str
clock_anomaly = codes "clock_anomaly"

unfoldable pub stream_findings : StreamVerifier → RecordView → List ChainFinding
stream_findings v view =
    when (not (str_eq view.stream_id v.stream_id)) (stream_mismatch view.seq view.stream_id)

unfoldable pub hash_findings : RecordView → Str → List ChainFinding
hash_findings view computed =
    when (not (str_eq computed view.record_hash))
      (record_hash_mismatch view.seq view.record_hash computed)

unfoldable pub genesis_findings : StreamVerifier → RecordView → List ChainFinding
genesis_findings v view =
    when (view.seq == 0 && not (str_eq view.prev_hash v.genesis))
      (genesis_violation view.prev_hash v.genesis)

abbrev pub same_segment : RecordView → RecordView → Bool
same_segment prev view = str_eq prev.segment_id view.segment_id

unfoldable pub seq_findings : RecordView → RecordView → List ChainFinding
seq_findings prev view =
    if leb view.seq prev.seq
    then seq_not_monotonic prev.seq view.seq ∷ []
    else when (same_segment prev view && not (view.seq == (prev.seq + 1)))
        (seq_gap_in_segment view.segment_id (prev.seq + 1) view.seq)

unfoldable pub mono_findings : RecordView → RecordView → List ChainFinding
mono_findings prev view =
    when (same_segment prev view && ltb view.ts_mono_ns prev.ts_mono_ns)
      (mono_regression view.seq prev.ts_mono_ns view.ts_mono_ns)

-- `delta < -WALL_TOLERANCE_MS` and neither record is a `clock_anomaly`
unfoldable pub wall_test : RecordView → RecordView → ℕ → ℕ → Bool
wall_test prev view ms prev_ms =
    ltb (ms + wall_tolerance_ms) prev_ms
    && (not (str_eq view.record_type clock_anomaly) && not (str_eq prev.record_type clock_anomaly))

-- the match on the parsed time and the time before it
unfoldable pub wall_findings_at : RecordView → RecordView → Option ℕ → Option ℕ → List ChainFinding
wall_findings_at prev view (some wall) (some prev_ms) =
    when (wall_test prev view (timestamp_millis wall) prev_ms)
      (wall_regression view.seq (sub_ℕ (timestamp_millis wall) prev_ms))
wall_findings_at prev view (some wall) none = []
wall_findings_at prev view none last = bad_wall_timestamp view.seq view.ts_wall ∷ []

unfoldable pub wall_findings :
    ⦃c : Chrono⦄ → StreamVerifier → RecordView → RecordView → List ChainFinding
wall_findings v prev view = wall_findings_at prev view (parse_wall view.ts_wall) v.prev_wall_ms

abbrev hash_of : Option RecordView → Option Str
hash_of none = none
hash_of (some view) = some view.record_hash

-- `StreamVerifier::head`
unfoldable pub head : StreamVerifier → Option Str
head v = hash_of v.prev

module _ ⦃d : Digests⦄ ⦃u : Ulids⦄ where
  unfoldable pub is_segment_break : RecordView → Bool
  is_segment_break view = elim (u.parse view.stream_id) [
    | none ↦ false
    | some stream ↦ elim (u.parse view.segment_id) [
      | none ↦ false
      | some segment ↦ str_eq view.prev_hash (segment_break_prev_hash stream segment)
    ]
  ]

  unfoldable pub link_findings : RecordView → RecordView → List ChainFinding
  link_findings prev view =
      if str_eq view.prev_hash prev.record_hash
      then []
      else if not (same_segment prev view) && is_segment_break view
      then segment_break view.segment_id view.seq ∷ []
      else link_broken view.seq prev.record_hash view.prev_hash ∷ []

  unfoldable pub new : Str → Result EvidenceError StreamVerifier
  new stream_id = elim (u.parse stream_id) [
    | none ↦ err schema
    | some id ↦ ok (record {
      stream_id = stream_id;
      genesis = genesis_prev_hash id;
      prev = none;
      prev_wall_ms = none;
      records_verified = 0;
    })
  ]

module _ ⦃d : Digests⦄ ⦃u : Ulids⦄ ⦃c : Chrono⦄ where
  -- the match on `self.prev`
  unfoldable pub order_findings :
      Option RecordView → StreamVerifier → RecordView → List ChainFinding
  order_findings none v view = genesis_findings v view
  order_findings (some prev) v view =
      seq_findings prev view
      ++ (link_findings prev view ++ (mono_findings prev view ++ wall_findings v prev view))

  unfoldable pub advance : StreamVerifier → RecordView → StreamVerifier
  advance v view = record v {
    prev = some view;
    prev_wall_ms = last_wall (parse_wall view.ts_wall) v.prev_wall_ms;
    records_verified = v.records_verified + 1;
  }

  -- The verifier after the record, and the findings. On an error the verifier is left as it was.
  unfoldable pub verify_next :
      StreamVerifier → Value → Result EvidenceError (StreamVerifier × List ChainFinding)
  verify_next v raw = do
    view ← from_value raw
    computed ← compute_hash_of_value raw
    ok (
      advance v view,
      stream_findings v view ++ (hash_findings view computed ++ order_findings v.prev v view),
    )

  -- the records of a stream in order, with all findings
  unfoldable pub verify_all :
      StreamVerifier → List Value → Result EvidenceError (StreamVerifier × List ChainFinding)
  verify_all v [] = ok (v, [])
  verify_all v (raw ∷ rest) = do
    first ← verify_next v raw
    others ← verify_all first.0 rest
    ok (others.0, first.1 ++ others.1)
