-- ===== src/Engine/Run.antt =====
-- crates/verify/src/engine.rs: `verify_bundle`, the whole run in its order.
pub mod Start
pub mod Read
pub mod Anchored
pub mod Roots
pub mod Refused
pub mod Attested
pub mod Pass
use mathlib.Core.Option
use sealr_verify.Common.{
  ℕ, ◌+◌, ◌-◌, Bool, true, false, not, ◌&&◌, ◌||◌, Option, none, some, List, [], ◌∷◌, ◌++◌, length,
  ◌==◌, if◌then◌else◌,
}
use sealr_verify.Common.Int.{ℤ}
use sealr_verify.Common.Text.{Bytes, Str, codes, str_eq}
use sealr_verify.Common.Result.{Result, ok, err, EvidenceError, BundleError}
use sealr_verify.Common.Run.{Run, modify}
use sealr_verify.Deps.{Digests, Ed25519, Ulids, Chrono, Serde, KeyPems}
use sealr_verify.Deps.Archives.{Zips, Zstd}
use sealr_verify.Deps.X509.{X509}
use sealr_verify.Deps.Tokens.{Tokens}
use sealr_verify.Jcs.{lex_le}
use sealr_verify.Revocation.{SignedRevocationList, verify}
use sealr_verify.Bundle.Anchors.{AnchorProofs}
use sealr_verify.Bundle.Manifest.{Manifest, StreamScope}
use sealr_verify.Bundle.Types.{BundleIdentity, RootsFile, StreamCheckpoints}
use sealr_verify.Bundle.Writer.{bundle_schema_version}
use sealr_verify.Bundle.Reader.{
  BundleReader, Parsers, entry_bytes, manifest_hash, verify_content_hashes, stream_checkpoints,
  anchor_proofs, identity_documents,
}
use sealr_verify.Bundle.Reader.Streams.{read_stream_records}
use sealr_verify.Report.{Finding, Severity, info, warning, error, VerifyResult, compute_result}
use sealr_verify.Engine.{StreamData, str_get, add_at}
use sealr_verify.Engine.Trust.{
  VerifyOptions, RootSource, override, embedded, bundle_pinned, no_source, add, select_roots,
}
use sealr_verify.Engine.Identity.{CertMap, KeyMap, succeeds, build_cert_map, resolve_console_keys}
use sealr_verify.Engine.Stream.{verify_stream_chain, earlier, later}
use sealr_verify.Engine.Checkpoints.{Trust, verify_checkpoints}
use sealr_verify.Engine.Anchors.{Streams, Anchoring, verify_anchors}
use sealr_verify.Engine.Coverage.{coverage_findings}

-- `Proven`
pub record Proven : Type 0 where
  pub records : ℕ
  pub streams : ℕ
  pub span_from : Option Str
  pub span_to : Option Str
  pub earliest_anchor : Option Str
  pub attested_records : ℕ
  pub anchored_records : ℕ

-- `ToolVersions`
pub record ToolVersions : Type 0 where
  pub verifier : Str
  pub bundle_schema : Str

-- `Report`, less the standing limits, which are the same text each time
pub record Report : Type 0 where
  pub result : VerifyResult
  pub bundle_id : Str
  pub manifest_hash : Str
  pub tool : ToolVersions
  pub proven : Proven
  pub findings : List Finding

-- `BTreeMap::insert`; texts are compared by their bytes, which is the order of the code points
unfoldable pub stream_insert : Str → StreamData → Streams → Streams
stream_insert k v [] = (k, v) ∷ []
stream_insert k v (s ∷ streams) =
    if str_eq s.0 k
    then (k, v) ∷ streams
    else if lex_le k s.0
    then (k, v) ∷ s ∷ streams
    else s ∷ stream_insert k v streams

-- the loop over the entries that are not listed
unfoldable pub unlisted_findings : List Str → List Finding → List Finding
unlisted_findings [] findings = findings
unlisted_findings (path ∷ paths) findings =
    unlisted_findings paths (add error (codes "unlisted_entry") findings)

unfoldable pub content_findings : Result BundleError (List Str) → List Finding → List Finding
content_findings (ok unlisted) findings = unlisted_findings unlisted findings
content_findings (err problem) findings = add error (codes "content_hash_mismatch") findings

unfoldable pub schema_findings : Manifest → List Finding → List Finding
schema_findings m findings =
    if str_eq m.schema_version bundle_schema_version
    then findings
    else add warning (codes "schema_version_unknown") findings

unfoldable pub source_findings : RootSource → List Finding → List Finding
source_findings no_source findings = findings
source_findings override findings = add info (codes "root_source") findings
source_findings embedded findings = add info (codes "root_source") findings
source_findings bundle_pinned findings = add info (codes "root_source") findings

-- `ok()` and `as_ref().map(..)`
abbrev pub to_option {ℓ} : {A : Type ℓ} → Result BundleError A → Option A
to_option (ok a) = some a
to_option (err problem) = none

abbrev pub unwrap_revocations : Option BundleIdentity → Option SignedRevocationList
unwrap_revocations none = none
unwrap_revocations (some identity) = identity.revocations

abbrev pub or_default : Result BundleError AnchorProofs → AnchorProofs
or_default (ok proofs) = proofs
or_default (err problem) = record { batches = []; daily = [] }

abbrev pub or_unavailable : Result BundleError Str → Str
or_unavailable (ok hash) = hash
or_unavailable (err problem) = codes "unavailable"

abbrev pub or_now : Option ℤ → ℤ → ℤ
or_now none clock = clock
or_now (some now) clock = now

-- what the identity phase gives
pub record Identity : Type 0 where
  pub cert_map : CertMap
  pub revocations : Option SignedRevocationList
  pub console_keys : KeyMap

module _ ⦃e : Ed25519⦄ ⦃d : Digests⦄ where
  unfoldable pub any_list_key : SignedRevocationList → KeyMap → Bool
  any_list_key rev [] = false
  any_list_key rev (k ∷ keys) = succeeds (verify rev k.1) || any_list_key rev keys

  unfoldable pub revocation_findings :
      Option SignedRevocationList → KeyMap → List Finding → List Finding
  revocation_findings none keys findings = findings
  revocation_findings (some rev) keys findings =
      if not (any_list_key rev keys) && not (length keys == 0)
      then add error (codes "revocation_list_signature_invalid") findings
      else if length keys == 0
      then add warning (codes "revocation_list_unverifiable") findings
      else findings

  module _ ⦃x : X509⦄ ⦃k : KeyPems⦄ where
    -- the phase of the identity; `embedded_pem` is the file that the build includes
    unfoldable pub identity_phase :
        Str → VerifyOptions → ℤ → Option BundleIdentity → List Finding → List Finding × Identity
    identity_phase embedded_pem opts now_unix identity findings =
        let roots = Option.map (λ (i : BundleIdentity). i.roots) identity in
        let (f1, (root_pems, source)) = select_roots embedded_pem opts roots findings in
        let (f2, cert_map) =
          build_cert_map (Option.map (λ (i : BundleIdentity). i.certs_pem) identity) root_pems
            now_unix f1 in
        let (f3, console_keys) = resolve_console_keys opts roots root_pems f2 in
        let revocations = unwrap_revocations identity in
        let f4 = revocation_findings revocations console_keys f3 in
        (
          source_findings source f4,
          record { cert_map = cert_map; revocations = revocations; console_keys = console_keys },
        )

-- the closure that hands over a line
abbrev pub push_line : Bytes → Run BundleError (List Bytes) (Unit {0})
push_line line = modify (λ lines. lines ++ line ∷ [])

abbrev pub failed {ℓ} : {A : Type ℓ} → Result BundleError A → Bool
failed (ok a) = false
failed (err problem) = true

module _ ⦃z : Zips⦄ ⦃c : Zstd⦄ ⦃p : Parsers⦄ ⦃d : Digests⦄ ⦃u : Ulids⦄ ⦃h : Chrono⦄ ⦃j : Serde⦄
    (r : BundleReader) where
  -- the chain of one stream
  unfoldable pub chain_stream : Str → List Finding → List Finding × StreamData
  chain_stream stream_id findings =
      let delivered = read_stream_records push_line r stream_id [] in
      verify_stream_chain stream_id delivered.1 (failed delivered.0) findings

  -- the loop over the streams of the scope
  unfoldable pub chain_streams : List StreamScope → List Finding × Streams → List Finding × Streams
  chain_streams [] s = s
  chain_streams (scope ∷ scopes) s =
      let out = chain_stream scope.stream_id s.0 in
      chain_streams scopes (out.0, stream_insert scope.stream_id out.1 s.1)

module _ ⦃e : Ed25519⦄ ⦃d : Digests⦄ ⦃h : Chrono⦄ (identity : Identity) where
  abbrev pub trust_for : Str → Trust
  trust_for stream_id = record {
    stream_id = stream_id;
    cert_map = identity.cert_map;
    revocations = identity.revocations;
    console_keys = identity.console_keys;
  }

  -- the checkpoints of one stream, as they were read
  unfoldable pub checkpoint_stream :
      Str
      → Result BundleError StreamCheckpoints
      → List Finding
      → StreamData
      → List Finding × StreamData
  checkpoint_stream stream_id (err problem) findings stream_data =
      (add_at warning (codes "checkpoints_missing") stream_id none findings, stream_data)
  checkpoint_stream stream_id (ok read) findings stream_data =
      verify_checkpoints (trust_for stream_id) read.checkpoints findings stream_data

  -- the loop over the streams
  unfoldable pub checkpoint_streams :
      (Str → Result BundleError StreamCheckpoints) → Streams → List Finding → List Finding × Streams
  checkpoint_streams read [] findings = (findings, [])
  checkpoint_streams read (s ∷ streams) findings =
      let out = checkpoint_stream s.0 (read s.0) findings s.1 in
      let rest = checkpoint_streams read streams out.0 in (rest.0, (s.0, out.1) ∷ rest.1)

-- the coverage checks of all streams
unfoldable pub coverage_streams : VerifyOptions → Streams → List Finding → List Finding
coverage_streams opts [] findings = findings
coverage_streams opts (s ∷ streams) findings =
    coverage_streams opts streams
      (findings ++ coverage_findings s.0 (str_get s.0 opts.expected_high_water) s.1)

-- `span_from` and `span_to` of a stream, when it has both times
abbrev pub span_from_of : Option Str → Option Str → Option Str → Option Str
span_from_of (some min) (some max) current = earlier (some min) current
span_from_of (some min) none current = current
span_from_of none max current = current

abbrev pub span_to_of : Option Str → Option Str → Option Str → Option Str
span_to_of (some min) (some max) current = later (some max) current
span_to_of (some min) none current = current
span_to_of none max current = current

-- the counts of all streams, which are in memory, so that no sum of them overflows
unfoldable pub count_streams : Streams → Proven → Proven
count_streams [] proven = proven
count_streams (s ∷ streams) proven = count_streams streams (record {
  records = proven.records + length s.1.hashes_by_seq;
  streams = proven.streams + 1;
  span_from = span_from_of s.1.ts_min s.1.ts_max proven.span_from;
  span_to = span_to_of s.1.ts_min s.1.ts_max proven.span_to;
  earliest_anchor = proven.earliest_anchor;
  attested_records = proven.attested_records + length s.1.attested_seqs;
  anchored_records = proven.anchored_records + length s.1.anchored_seqs;
})

-- `Proven::default()`
abbrev pub nothing_proven : Proven
nothing_proven = record {
  records = 0;
  streams = 0;
  span_from = none;
  span_to = none;
  earliest_anchor = none;
  attested_records = 0;
  anchored_records = 0;
}

module _ ⦃z : Zips⦄ ⦃c : Zstd⦄ ⦃p : Parsers⦄ ⦃d : Digests⦄ ⦃u : Ulids⦄ ⦃h : Chrono⦄ ⦃j : Serde⦄
    ⦃e : Ed25519⦄ ⦃x : X509⦄ ⦃k : KeyPems⦄ ⦃t : Tokens⦄
    -- the embedded roots, the time of the clock, and what the caller gives
    (embedded_pem : Str) (clock : ℤ) (r : BundleReader) (opts : VerifyOptions) where
  -- the container and the identity
  unfoldable pub run_identity : List Finding × Identity
  run_identity =
      identity_phase embedded_pem opts (or_now opts.now_unix clock)
        (to_option (identity_documents r))
        (content_findings (verify_content_hashes r) (schema_findings r.manifest []))

  -- the chains of the streams
  unfoldable pub run_chains : List Finding × Streams
  run_chains = chain_streams r r.manifest.scope.streams (run_identity.0, [])

  -- the checkpoints of the streams
  unfoldable pub run_checkpoints : List Finding × Streams
  run_checkpoints =
      checkpoint_streams run_identity.1 (stream_checkpoints r) run_chains.1 run_chains.0

  -- the anchors
  unfoldable pub run_anchors : Anchoring
  run_anchors =
      verify_anchors (entry_bytes r) (or_default (anchor_proofs r)) run_identity.1.console_keys
        run_checkpoints.0 run_checkpoints.1

  -- the coverage checks
  unfoldable pub run_findings : List Finding
  run_findings = coverage_streams opts run_anchors.streams run_anchors.findings

  -- `verifier_version` is the version of the crate
  unfoldable pub verify_bundle : Str → Report
  verify_bundle verifier_version = record {
    result = compute_result run_findings;
    bundle_id = r.manifest.bundle_id;
    manifest_hash = or_unavailable (manifest_hash r);
    tool = record { verifier = verifier_version; bundle_schema = r.manifest.schema_version };
    proven = record (count_streams run_anchors.streams nothing_proven) {
      earliest_anchor = run_anchors.earliest;
    };
    findings = run_findings;
  }
