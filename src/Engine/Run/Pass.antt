-- ===== src/Engine/Run/Pass.antt =====
-- What the result `Pass` says of the streams of a run.
use sealr_verify.Common.Result.{Result, ok, err, BundleError}
use sealr_verify.Bundle.Types.{StreamCheckpoints}
use sealr_verify.Engine.{SeqMap}
use sealr_verify.Engine.Checkpoints.{Trust}
use sealr_verify.Engine.Checkpoints.Sources.{IsChained}
use sealr_verify.Engine.Run.{Identity, trust_for}
use sealr_verify.Common.{All}
use sealr_verify.Common.{◌≤◌, ◌≡◌, false, List, length}
use sealr_verify.Common.Text.{Str}
use sealr_verify.Deps.{Digests, Ed25519, Chrono}
use sealr_verify.Deps.X509.{X509}
use sealr_verify.Deps.Tokens.{Tokens}
use sealr_verify.Report.{Finding, is_error, is_warning, any_severity}
use sealr_verify.Engine.{StreamData, str_get}
use sealr_verify.Engine.Trust.{VerifyOptions}
use sealr_verify.Engine.Coverage.Complete.{Linked, ReachesOpt}

-- a stream that no removal of records shortens, that is attested in whole, and whose notes are linked
record IsCovered (opts : VerifyOptions) (id : Str) (stream_data : StreamData) : Type 0 where
  linked : Linked stream_data.checkpoint_note_hashes stream_data.checkpoint_links
  reaches_pinned : ReachesOpt stream_data.hashes_by_seq (str_get id opts.expected_high_water)
  reaches_countersigned : ReachesOpt stream_data.hashes_by_seq stream_data.countersigned_high_water
  attested : length stream_data.hashes_by_seq ≤ length stream_data.attested_seqs

-- without errors and warnings
abbrev IsQuiet : List Finding → Type 0
IsQuiet fs = (any_severity is_error fs ≡ false) × (any_severity is_warning fs ≡ false)

-- each of the checkpoints that were read is kept, and names as its predecessor only one of them
abbrev pub AllLinked :
    ⦃e : Ed25519⦄ ⦃d : Digests⦄ ⦃h : Chrono⦄
    → Trust
    → SeqMap
    → Result BundleError StreamCheckpoints
    → Type 0
AllLinked t hashes (err problem) = Unit
AllLinked t hashes (ok c) = All (IsChained t hashes c.checkpoints) c.checkpoints

module _ ⦃e : Ed25519⦄ ⦃d : Digests⦄ ⦃h : Chrono⦄ (identity : Identity)
    (read : Str → Result BundleError StreamCheckpoints) (opts : VerifyOptions) where
  -- A stream that no removal of checkpoints or of records shortens, and of which as many numbers are
  -- attested as there are records.
  pub record IsComplete (id : Str) (stream_data : StreamData) : Type 0 where
    pub linked : AllLinked (trust_for identity id) stream_data.hashes_by_seq (read id)
    pub reaches_pinned : ReachesOpt stream_data.hashes_by_seq (str_get id opts.expected_high_water)
    pub reaches_countersigned :
        ReachesOpt stream_data.hashes_by_seq stream_data.countersigned_high_water
    pub attested : length stream_data.hashes_by_seq ≤ length stream_data.attested_seqs
