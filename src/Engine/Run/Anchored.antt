-- ===== src/Engine/Run/Anchored.antt =====
-- What the anchored records of a run rest on.
use sealr_verify.Common.{
  ℕ, ◌≤◌, ◌≡◌, refl, sym, ap, ◌∙◌, subst, true, some, get_elem?, All-get_elem?,
}
use sealr_verify.Common.Int.{ℤ}
use sealr_verify.Common.Text.{Bytes, Str}
use sealr_verify.Common.Result.{Result, ok, err, BundleError}
use sealr_verify.Deps.{Digests, Ed25519, Ulids, Chrono, Serde, KeyPems}
use sealr_verify.Deps.Archives.{Zips, Zstd}
use sealr_verify.Deps.X509.{X509}
use sealr_verify.Deps.Tokens.{Tokens}
use sealr_verify.Hash.{hex_decode_digest}
use sealr_verify.Bundle.Types.{BundleCheckpoint, StreamCheckpoints}
use sealr_verify.Bundle.Reader.{BundleReader, Parsers, stream_checkpoints}
use sealr_verify.Engine.{SeqMap, StreamData, has_seq, str_get}
use sealr_verify.Engine.Trust.{VerifyOptions}
use sealr_verify.Engine.Checkpoints.{Trust}
use sealr_verify.Engine.Checkpoints.Kept.{Notes, Among}
use sealr_verify.Engine.Checkpoints.Sources.{HasRange, HasDigest, range_sound, digest_sound}
use sealr_verify.Engine.Anchors.{or_zeros}
use sealr_verify.Engine.Run.{trust_for, run_identity, run_anchors}
use sealr_verify.Engine.Run.Read.{notes_read, run_checkpoints-IsRead, run_anchors-IsRead}
use sealr_verify.Engine.Run.Attested.{HasToken, run_sound}

-- a checkpoint with this id whose range holds the number
abbrev pub Covers : Str → ℕ → BundleCheckpoint → Type 0
Covers cp_id s bc =
    (bc.checkpoint.note.checkpoint_id ≡ cp_id)
    × (bc.checkpoint.note.seq_from ≤ s)
    × (s ≤ bc.checkpoint.note.seq_to)

module _ ⦃e : Ed25519⦄ ⦃d : Digests⦄ ⦃h : Chrono⦄ (t : Trust) (hashes : SeqMap) where
  -- one of the checkpoints that were read, of which this holds
  abbrev pub AmongRead : Result BundleError StreamCheckpoints → (BundleCheckpoint → Type 0) → Type 0
  AmongRead out P = (c : StreamCheckpoints) × (out ≡ ok c) × Among t hashes c.checkpoints P

module _ ⦃e : Ed25519⦄ ⦃d : Digests⦄ ⦃h : Chrono⦄ (t : Trust) (hashes : SeqMap) (cp_id : Str)
    (notes : Notes) where
  range_read :
      (range : ℕ × ℕ) (out : Result BundleError StreamCheckpoints)
      → notes ≡ notes_read t hashes out
      → str_get cp_id notes.ranges ≡ some range
      → AmongRead t hashes out (HasRange cp_id range)
  unfolding str_get
  range_read range (err problem) from_read there =
      absurd (cc (sym (ap (λ n. str_get cp_id n.ranges) from_read) ∙ there))
  range_read range (ok c) from_read there = (
    c,
    refl,
    range_sound t hashes c.checkpoints cp_id range
        (sym (ap (λ n. str_get cp_id n.ranges) from_read) ∙ there),
  )

  digest_read :
      (digest : Bytes) (out : Result BundleError StreamCheckpoints)
      → notes ≡ notes_read t hashes out
      → str_get cp_id notes.digests ≡ some digest
      → AmongRead t hashes out (HasDigest cp_id digest)
  unfolding str_get
  digest_read digest (err problem) from_read there =
      absurd (cc (sym (ap (λ n. str_get cp_id n.digests) from_read) ∙ there))
  digest_read digest (ok c) from_read there = (
    c,
    refl,
    digest_sound t hashes c.checkpoints cp_id digest
        (sym (ap (λ n. str_get cp_id n.digests) from_read) ∙ there),
  )

Covers-of_range :
    (cp_id : Str) (s : ℕ) (range : ℕ × ℕ) (bc : BundleCheckpoint)
    → range.0 ≤ s
    → s ≤ range.1
    → HasRange cp_id range bc
    → Covers cp_id s bc
Covers-of_range cp_id s range bc lo hi (named, same) = (
  named,
  subst (λ n. n ≤ s) (sym (ap (λ q. q.0) same)) lo,
  subst (λ n. s ≤ n) (sym (ap (λ q. q.1) same)) hi,
)

module _ ⦃z : Zips⦄ ⦃c : Zstd⦄ ⦃p : Parsers⦄ ⦃d : Digests⦄ ⦃u : Ulids⦄ ⦃h : Chrono⦄ ⦃j : Serde⦄
    ⦃e : Ed25519⦄ ⦃x : X509⦄ ⦃k : KeyPems⦄ ⦃t : Tokens⦄ (embedded_pem : Str) (clock : ℤ)
    (r : BundleReader) (opts : VerifyOptions) where
  -- The number is in the range of a checkpoint that was read for the stream and kept, and the bundle
  -- has a timestamp for the digest of a note with the same id that was read for it and kept.
  pub record HasTimestamp (id : Str) (hashes : SeqMap) (s : ℕ) : Type 0 where
    pub cp_id : Str
    pub covered :
        AmongRead
          (trust_for (run_identity embedded_pem clock r opts).1 id)
          hashes
          (stream_checkpoints r id)
          (Covers cp_id s)
    pub token : HasToken embedded_pem clock r opts id cp_id
    pub digested :
        AmongRead
          (trust_for (run_identity embedded_pem clock r opts).1 id)
          token.included.stream_data.hashes_by_seq
          (stream_checkpoints r id)
          (HasDigest cp_id (or_zeros (hex_decode_digest token.included.inclusion.leaf)))

  -- A record that counts as anchored at the end of a run is attested, and in the range of a checkpoint
  -- that was read for its stream and that no check passed over. A note with the id of this checkpoint
  -- was read for the stream, and its digest has a valid proof of inclusion in a batch of the bundle
  -- that a verified token binds.
  pub run_anchored :
      (i : ℕ) (id : Str) (stream_data : StreamData) (s : ℕ)
      → get_elem? (run_anchors embedded_pem clock r opts).streams i ≡ some (id, stream_data)
      → has_seq s stream_data.anchored_seqs ≡ true
      → (has_seq s stream_data.attested_seqs ≡ true) × HasTimestamp id stream_data.hashes_by_seq s
  run_anchored i id stream_data s listed is =
      let trust = trust_for (run_identity embedded_pem clock r opts).1 id in
      let read = stream_checkpoints r id in
      let (attested, (cp_id, token, (range, there, lo, hi))) =
        (All-get_elem? _ _ i (run_sound embedded_pem clock r opts) listed).anchored s is in
      let its = All-get_elem? _ _ i (run_anchors-IsRead embedded_pem clock r opts) listed in
      let at_token =
        All-get_elem? _ _ token.included.stream (run_checkpoints-IsRead embedded_pem clock r opts)
          token.included.stream_listed in
      let (c, was_read, (n, bc, bc_listed, kept, ranged)) =
        range_read trust stream_data.hashes_by_seq cp_id _ range read its there in
      (
        attested,
        record {
          cp_id = cp_id;
          covered = (
            c,
            was_read,
            (n, bc, bc_listed, kept, Covers-of_range cp_id s range bc lo hi ranged),
          );
          token = token;
          digested =
              digest_read trust token.included.stream_data.hashes_by_seq cp_id _ _ read at_token
                token.included.digest;
        },
      )
