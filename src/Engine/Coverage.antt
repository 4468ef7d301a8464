-- ===== src/Engine/Coverage.antt =====
-- The coverage cross-checks of `verify_bundle` for one stream: what is not attested, checkpoints
-- that were removed, and how far the stream must have gone.
pub mod Complete
use sealr_verify.Common.{
  ℕ, ◌-◌, ◌&&◌, Bool, true, false, not, Option, none, some, List, [], ◌∷◌, ◌++◌, ltb, if◌then◌else◌,
  length,
}
use sealr_verify.Common.Text.{Str, codes}
use sealr_verify.Report.{Severity, info, warning, error, Finding}
use sealr_verify.Engine.{SeqMap, has_str, StreamData}

-- a finding of the stream
abbrev pub at_stream : Str → Severity → Str → Finding
at_stream stream_id severity class = record {
  severity = severity;
  class = class;
  stream_id = some stream_id;
  seq = none;
}

abbrev pub only_if : Bool → Finding → List Finding
only_if true f = f ∷ []
only_if false f = []

abbrev pub max_of : ℕ → Option ℕ → ℕ
max_of k none = k
max_of k (some j) = if ltb k j then j else k

-- `keys().next_back()`
unfoldable pub max_key : SeqMap → Option ℕ
max_key [] = none
max_key (e ∷ m) = some (max_of e.0 (max_key m))

-- `pinned.into_iter().chain(data.countersigned_high_water).max()`
abbrev pub high_water : Option ℕ → Option ℕ → Option ℕ
high_water none countersigned = countersigned
high_water (some p) countersigned = some (max_of p countersigned)

-- `max_present.is_none_or(|m| m < hw)`
abbrev pub stops_below : ℕ → Option ℕ → Bool
stops_below hw none = true
stops_below hw (some m) = ltb m hw

unfoldable pub truncation_findings : Str → Option ℕ → Option ℕ → List Finding
truncation_findings stream_id none max_present = []
truncation_findings stream_id (some hw) max_present =
    only_if (stops_below hw max_present) (at_stream stream_id error (codes "truncation_detected"))

-- the loop over `checkpoint_links`
unfoldable pub link_findings : Str → List Str → List (Str × Str) → List Finding
link_findings stream_id hashes [] = []
link_findings stream_id hashes (link ∷ links) =
    only_if (not (has_str link.1 hashes))
      (at_stream stream_id error (codes "checkpoint_chain_broken"))
    ++ link_findings stream_id hashes links

abbrev pub is_none {ℓ} : {A : Type ℓ} → Option A → Bool
is_none none = true
is_none (some a) = false

unfoldable pub tail_findings : Str → Option ℕ → StreamData → List Finding
tail_findings stream_id pinned d =
    only_if
      (is_none pinned && (ltb 0 (length d.hashes_by_seq) && is_none d.countersigned_high_water))
      (at_stream stream_id warning (codes "tail_completeness_unproven"))

-- the loop over `segments_without_end`
unfoldable pub segment_findings : Str → List Str → List Finding
segment_findings stream_id [] = []
segment_findings stream_id (seg ∷ segs) =
    at_stream stream_id info (codes "segment_no_clean_end") ∷ segment_findings stream_id segs

-- the findings in the order in which they are added
unfoldable pub coverage_findings : Str → Option ℕ → StreamData → List Finding
unfolding segment_findings
coverage_findings stream_id pinned d =
    only_if (ltb 0 (length d.hashes_by_seq - length d.attested_seqs))
      (at_stream stream_id warning (codes "unattested_tail"))
    ++ (link_findings stream_id d.checkpoint_note_hashes d.checkpoint_links
        ++ (truncation_findings stream_id (high_water pinned d.countersigned_high_water)
              (max_key d.hashes_by_seq)
            ++ (tail_findings stream_id pinned d
                ++ (only_if (ltb 0 d.coverage_gap_count)
                      (at_stream stream_id warning (codes "coverage_gaps_recorded"))
                    ++ segment_findings stream_id d.segments_without_end))))
