-- ===== src/Engine/Run/Start.antt =====
-- The chain phase attests and anchors nothing.
use sealr_verify.Common.{
  ◌≡◌, refl, Option, none, some, List, [], ◌∷◌, All, Bool, Bool-cases, inl, inr,
}
use sealr_verify.Common.Text.{codes, Bytes, Str, str_eq}
use sealr_verify.Common.Result.{Result, ok, err, EvidenceError}
use sealr_verify.Deps.{Digests, Ulids, Chrono, Serde}
use sealr_verify.Deps.Archives.{Zips, Zstd}
use sealr_verify.Json.{Value, and_then, get_key, as_u64}
use sealr_verify.Jcs.{lex_le}
use sealr_verify.Bundle.Manifest.{StreamScope}
use sealr_verify.Bundle.Reader.{BundleReader, Parsers}
use sealr_verify.Chain.Verifier.{StreamVerifier, ChainFinding, verify_next, new}
use sealr_verify.Report.{Finding}
use sealr_verify.Engine.{StreamData}
use sealr_verify.Engine.Stream.{
  collect_stats, Walk, after_verify, on_value, on_parsed, on_lines, with_verifier,
  verify_stream_chain,
}
use sealr_verify.Engine.Checkpoints.Kept.{notes_of, no_notes}
use sealr_verify.Engine.Anchors.{Streams}
use sealr_verify.Engine.Run.{stream_insert, chain_stream, chain_streams}

-- a stream of which nothing is attested or anchored
pub record IsFresh (stream_data : StreamData) : Type 0 where
  pub attested : stream_data.attested_seqs ≡ []
  pub anchored : stream_data.anchored_seqs ≡ []
  pub notes : notes_of stream_data ≡ no_notes

module _ ⦃d : Digests⦄ ⦃u : Ulids⦄ ⦃c : Chrono⦄ where
  on_value-IsFresh :
      (id : Str) (value : Value) (w : Walk)
      → IsFresh w.stream_data
      → IsFresh (on_value id value w).stream_data
  unfolding on_value collect_stats
  on_value-IsFresh id value w fresh = split (verify_next w.verifier value)
    where
      split :
          (out : Result EvidenceError (StreamVerifier × List ChainFinding))
          → IsFresh
              (after_verify id value
                (and_then (get_key (codes "seq") value) as_u64)
                w
                out).stream_data
      split (err problem) = fresh
      split (ok r) = record {
        attested = fresh.attested;
        anchored = fresh.anchored;
        notes = fresh.notes;
      }

  module _ ⦃j : Serde⦄ where
    on_lines-IsFresh :
        (id : Str) (lines : List Bytes) (w : Walk)
        → IsFresh w.stream_data
        → IsFresh (on_lines id lines w).stream_data
    unfolding on_lines
    on_lines-IsFresh id [] w fresh = fresh
    on_lines-IsFresh id (line ∷ lines) w fresh =
        on_lines-IsFresh id lines (on_parsed id (j.from_slice line) w) (split (j.from_slice line))
      where
        split : (out : Option Value) → IsFresh (on_parsed id out w).stream_data
        split none = record {
          attested = fresh.attested;
          anchored = fresh.anchored;
          notes = fresh.notes;
        }
        split (some value) = on_value-IsFresh id value w fresh

    verify_stream_chain-IsFresh :
        (id : Str) (lines : List Bytes) (read_failed : Bool) (findings : List Finding)
        → IsFresh (verify_stream_chain id lines read_failed findings).1
    unfolding verify_stream_chain
    verify_stream_chain-IsFresh id lines read_failed findings = split (new id)
      where
        split :
            (out : Result EvidenceError StreamVerifier)
            → IsFresh (with_verifier id lines read_failed findings out).1
        split (err problem) = record { attested = refl; anchored = refl; notes = refl }
        split (ok v) =
            let fresh =
              on_lines-IsFresh id lines
                (record {
                  findings = findings;
                  verifier = v;
                  stream_data = _;
                  segments_seen = [];
                  segments_ended = [];
                })
                (record { attested = refl; anchored = refl; notes = refl }) in
            record { attested = fresh.attested; anchored = fresh.anchored; notes = fresh.notes }

-- a predicate of every stream
abbrev pub AllStreams : (Str → StreamData → Type 0) → Streams → Type 0
AllStreams P = All (λ (s : Str × StreamData). P s.0 s.1)

stream_insert-AllStreams :
    (P : Str → StreamData → Type 0) (k : Str) (v : StreamData) (streams : Streams)
    → P k v
    → AllStreams P streams
    → AllStreams P (stream_insert k v streams)
unfolding stream_insert
stream_insert-AllStreams P k v [] new all = (new, tt)
stream_insert-AllStreams P k v (s ∷ streams) new all = elim (Bool-cases (str_eq s.0 k)) [
  | inl t ↦ rw t (new, all.1)
  | inr t ↦ elim (Bool-cases (lex_le k s.0)) [
    | inl u ↦ rw (t, u) (new, all)
    | inr u ↦ rw (t, u) (all.0, stream_insert-AllStreams P k v streams new all.1)
  ]
]

module _ ⦃z : Zips⦄ ⦃c : Zstd⦄ ⦃p : Parsers⦄ ⦃d : Digests⦄ ⦃u : Ulids⦄ ⦃h : Chrono⦄ ⦃j : Serde⦄
    (r : BundleReader) where
  pub chain_streams-IsFresh :
      (scopes : List StreamScope) (s : List Finding × Streams)
      → AllStreams (λ id stream_data. IsFresh stream_data) s.1
      → AllStreams (λ id stream_data. IsFresh stream_data) (chain_streams r scopes s).1
  unfolding chain_streams chain_stream
  chain_streams-IsFresh [] s fresh = fresh
  chain_streams-IsFresh (scope ∷ scopes) s fresh = chain_streams-IsFresh scopes _ (
      stream_insert-AllStreams (λ id stream_data. IsFresh stream_data) scope.stream_id _ s.1
        (verify_stream_chain-IsFresh scope.stream_id _ _ s.0) fresh)
