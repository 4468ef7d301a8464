-- ===== src/Engine/Stream.antt =====
-- `verify_stream_chain`: the records of one stream, line by line, and what is collected of them.
use sealr_verify.Common.{
  ℕ, ◌+◌, Bool, false, Option, none, some, List, [], ◌∷◌, ◌++◌, if◌then◌else◌,
}
use sealr_verify.Common.Text.{Bytes, Str, codes, str_eq}
use sealr_verify.Common.Result.{Result, ok, err, EvidenceError}
use sealr_verify.Deps.{Digests, Ulids, Chrono, Serde}
use sealr_verify.Json.{Value, get_key, as_str, as_u64, and_then}
use sealr_verify.Jcs.{lex_le}
use sealr_verify.Chain.Verifier.{
  ChainFinding, StreamVerifier, new, verify_next, record_hash_mismatch, link_broken,
  seq_gap_in_segment, seq_not_monotonic, mono_regression, wall_regression, genesis_violation,
  segment_break, stream_mismatch, bad_wall_timestamp,
}
use sealr_verify.Report.{Severity, warning, error, Finding}
use sealr_verify.Engine.{SeqMap, seq_insert, has_str, add_str, StreamData, no_data, add_at}

unfoldable pub classify_chain_finding : ChainFinding → Str
classify_chain_finding (record_hash_mismatch seq expected computed) = codes "record_hash_mismatch"
classify_chain_finding (link_broken seq expected found) = codes "chain_link_broken"
classify_chain_finding (seq_gap_in_segment segment_id expected found) = codes "seq_gap"
classify_chain_finding (seq_not_monotonic prev found) = codes "seq_not_monotonic"
classify_chain_finding (mono_regression seq prev_ns found_ns) = codes "monotonic_regression"
classify_chain_finding (wall_regression seq delta_ms) = codes "wall_clock_regression"
classify_chain_finding (genesis_violation found expected) = codes "genesis_violation"
classify_chain_finding (segment_break segment_id seq) = codes "segment_break"
classify_chain_finding (stream_mismatch seq found_stream) = codes "stream_mismatch"
classify_chain_finding (bad_wall_timestamp seq value) = codes "bad_wall_timestamp"

unfoldable pub chain_severity : ChainFinding → Severity
chain_severity (record_hash_mismatch seq expected computed) = error
chain_severity (link_broken seq expected found) = error
chain_severity (seq_gap_in_segment segment_id expected found) = error
chain_severity (seq_not_monotonic prev found) = error
chain_severity (mono_regression seq prev_ns found_ns) = error
chain_severity (wall_regression seq delta_ms) = error
chain_severity (genesis_violation found expected) = error
chain_severity (segment_break segment_id seq) = warning
chain_severity (stream_mismatch seq found_stream) = error
chain_severity (bad_wall_timestamp seq value) = error

-- what the closure of `verify_stream_chain` changes
pub record Walk : Type 0 where
  pub findings : List Finding
  pub verifier : StreamVerifier
  pub stream_data : StreamData
  pub segments_seen : List Str
  pub segments_ended : List Str

-- the loop over the findings of one record
unfoldable pub add_chain_findings : Str → Option ℕ → List ChainFinding → List Finding → List Finding
add_chain_findings stream_id seq [] findings = findings
add_chain_findings stream_id seq (f ∷ fs) findings =
    add_chain_findings stream_id seq fs
      (add_at (chain_severity f) (classify_chain_finding f) stream_id seq findings)

abbrev pub str_at : Str → Value → Option Str
str_at k value = and_then (get_key k value) as_str

abbrev pub put_hash : Option ℕ → Option Str → SeqMap → SeqMap
put_hash none hash hashes = hashes
put_hash (some seq) none hashes = hashes
put_hash (some seq) (some hash) hashes = seq_insert seq hash hashes

-- texts are compared by their bytes, which is the order of the code points
abbrev pub earlier : Option Str → Option Str → Option Str
earlier none current = current
earlier (some ts) none = some ts
earlier (some ts) (some m) = if lex_le m ts then some m else some ts

abbrev pub later : Option Str → Option Str → Option Str
later none current = current
later (some ts) none = some ts
later (some ts) (some m) = if lex_le ts m then some m else some ts

abbrev pub or_empty : Option Str → Str
or_empty none = []
or_empty (some s) = s

-- whether the last of the segments is this one
abbrev pub ends_with : Str → List Str → Bool
ends_with seg [] = false
ends_with seg (s ∷ []) = str_eq s seg
ends_with seg (s ∷ t ∷ rest) = ends_with seg (t ∷ rest)

abbrev pub see_segment : Option Str → List Str → List Str
see_segment none seen = seen
see_segment (some seg) seen = if ends_with seg seen then seen else seen ++ seg ∷ []

-- a `segment_end` in a record of type `lifecycle`
abbrev pub end_segment : Option Str → Str → Option Str → List Str → List Str
end_segment none rtype op ended = ended
end_segment (some seg) rtype op ended =
    if str_eq rtype (codes "lifecycle")
    then (if str_eq (or_empty op) (codes "segment_end") then add_str seg ended else ended)
    else ended

-- the statistics of one record
unfoldable pub collect_stats : Value → Option ℕ → Walk → Walk
collect_stats value seq w =
    let ts = str_at (codes "ts_wall") value in
    let rtype = or_empty (str_at (codes "record_type") value) in
    let segment = str_at (codes "segment_id") value in
    let op =
      and_then (and_then (get_key (codes "action") value) (get_key (codes "operation"))) as_str in
    let old = w.stream_data in
    record w {
      stream_data = record old {
        hashes_by_seq = put_hash seq (str_at (codes "record_hash") value) old.hashes_by_seq;
        ts_min = earlier ts old.ts_min;
        ts_max = later ts old.ts_max;
        coverage_gap_count =
            if str_eq rtype (codes "coverage_gap")
            then old.coverage_gap_count + 1
            else old.coverage_gap_count;
      };
      segments_seen = see_segment segment w.segments_seen;
      segments_ended = end_segment segment rtype op w.segments_ended;
    }

-- `filter` over the segments
abbrev pub not_ended : List Str → List Str → List Str
not_ended ended [] = []
not_ended ended (s ∷ seen) =
    if has_str s ended then not_ended ended seen else s ∷ not_ended ended seen

module _ ⦃d : Digests⦄ ⦃u : Ulids⦄ ⦃c : Chrono⦄ where
  abbrev pub after_verify :
      Str
      → Value
      → Option ℕ
      → Walk
      → Result EvidenceError (StreamVerifier × List ChainFinding)
      → Walk
  after_verify stream_id value seq w (err e) = record w {
    findings = add_at error (codes "record_invalid") stream_id seq w.findings;
  }
  after_verify stream_id value seq w (ok r) =
      collect_stats value seq
        (record w { verifier = r.0; findings = add_chain_findings stream_id seq r.1 w.findings })

  unfoldable pub on_value : Str → Value → Walk → Walk
  on_value stream_id value w =
      after_verify stream_id value (and_then (get_key (codes "seq") value) as_u64) w
        (verify_next w.verifier value)

  abbrev pub on_parsed : Str → Option Value → Walk → Walk
  on_parsed stream_id none w = record w {
    findings = add_at error (codes "record_parse_error") stream_id none w.findings;
  }
  on_parsed stream_id (some value) w = on_value stream_id value w

module _ ⦃d : Digests⦄ ⦃u : Ulids⦄ ⦃c : Chrono⦄ ⦃j : Serde⦄ where
  -- the closure, for each line that the reader hands over
  unfoldable pub on_lines : Str → List Bytes → Walk → Walk
  on_lines stream_id [] w = w
  on_lines stream_id (line ∷ rest) w =
      on_lines stream_id rest (on_parsed stream_id (j.from_slice line) w)

  abbrev pub finish : Str → Bool → Walk → List Finding × StreamData
  finish stream_id read_failed w = (
    if read_failed
        then add_at error (codes "stream_read_error") stream_id none w.findings
        else w.findings,
    record w.stream_data { segments_without_end = not_ended w.segments_ended w.segments_seen },
  )

  abbrev pub with_verifier :
      Str
      → List Bytes
      → Bool
      → List Finding
      → Result EvidenceError StreamVerifier
      → List Finding × StreamData
  with_verifier stream_id lines read_failed findings (err e) =
      (add_at error (codes "stream_id_invalid") stream_id none findings, no_data)
  with_verifier stream_id lines read_failed findings (ok v) = finish stream_id read_failed (
      on_lines stream_id lines (record {
        findings = findings;
        verifier = v;
        stream_data = no_data;
        segments_seen = [];
        segments_ended = [];
      }))

  -- The reader hands over `lines` and then may fail.
  unfoldable pub verify_stream_chain :
      Str → List Bytes → Bool → List Finding → List Finding × StreamData
  unfolding on_lines
  verify_stream_chain stream_id lines read_failed findings =
      with_verifier stream_id lines read_failed findings (new stream_id)
