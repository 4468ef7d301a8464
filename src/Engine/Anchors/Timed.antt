-- ===== src/Engine/Anchors/Timed.antt =====
-- Which records count as anchored after `verify_anchors`.
use sealr_verify.Common.{
  subst, subst, ℕ, suc, ◌≡◌, refl, sym, ap, ◌∙◌, inl, inr, Bool-cases, Option, none, some, List, [],
  ◌∷◌, get_elem?, if◌then◌else◌,
}
use sealr_verify.Common.Text.{Bytes, Str, str_eq, str_eq→eq, codes}
use sealr_verify.Common.Result.{Result, ok, err, EvidenceError, BundleError}
use sealr_verify.Deps.{Digests, Ed25519}
use sealr_verify.Deps.Tokens.{Tokens}
use sealr_verify.Hash.{hex_decode_digest, sha256_hex}
use sealr_verify.Tsa.{TsaError, VerifiedToken, verify_token}
use sealr_verify.Bundle.Anchors.{AnchorBatch, AnchorProofs, CheckpointInclusion, verify_inclusion}
use sealr_verify.Report.{Finding, error}
use sealr_verify.Engine.{str_get, StreamData}
use sealr_verify.Engine.Identity.{KeyMap}
use sealr_verify.Engine.Trust.{add}
use sealr_verify.Engine.Anchors.{
  Streams, Anchoring, Included, find_digest, or_zeros, match_leaf, compare_leaf, imprint_of,
  add_inclusion, check_inclusions, accept_batch, check_token, check_batch_token, check_bound_batch,
  check_batch, check_batches, verify_anchors,
}
use sealr_verify.Engine.Anchors.Days.{check_days-streams}
use sealr_verify.Engine.Anchors.Anchored.{
  AllGrow, AllGrow-refl, HasReasons, HasReasons-push, mark_all-AllGrow, find_digest_sound,
}

-- a checkpoint of a stream whose digest has a valid proof of inclusion in the batch
pub record IsIncluded ⦃d : Digests⦄ (streams : Streams) (batch : AnchorBatch) (id cp_id : Str)
    : Type 0 where
  pub index : ℕ
  pub inclusion : CheckpointInclusion
  pub listed : get_elem? batch.checkpoints index ≡ some inclusion
  pub names : inclusion.checkpoint_id ≡ cp_id
  pub proved : verify_inclusion inclusion batch.root_blake3 ≡ ok tt
  pub stream : ℕ
  pub stream_data : StreamData
  pub stream_listed : get_elem? streams stream ≡ some (id, stream_data)
  pub digest :
      str_get cp_id stream_data.checkpoint_digests
      ≡ some (or_zeros (hex_decode_digest inclusion.leaf))

module _ ⦃d : Digests⦄ ⦃t : Tokens⦄ (entry_bytes : Str → Result BundleError Bytes) where
  -- a batch whose root is bound by a token that verifies
  pub record IsStamped (batch : AnchorBatch) : Type 0 where
    pub root_raw : Bytes
    pub root_read : hex_decode_digest batch.root_blake3 ≡ ok root_raw
    pub root_bound : sha256_hex root_raw ≡ batch.root_sha256
    pub path : Str
    pub has_token : batch.tsr_file ≡ some path
    pub bytes : Bytes
    pub token_read : entry_bytes path ≡ ok bytes
    pub imprint : Bytes
    pub imprint_read : imprint_of batch.root_sha256 ≡ ok imprint
    pub token : VerifiedToken
    pub verified : verify_token bytes imprint ≡ ok token

  -- a checkpoint in a batch with a timestamp
  pub record IsTimed (streams : Streams) (batches : List AnchorBatch) (id cp_id : Str)
      : Type 0 where
    pub index : ℕ
    pub batch : AnchorBatch
    pub listed : get_elem? batches index ≡ some batch
    pub included : IsIncluded streams batch id cp_id
    pub stamped : IsStamped batch

  module _ (start : Streams) (all : List AnchorBatch) where
    module _ (batch : AnchorBatch) (current : Streams)
        (grown : AllGrow (IsTimed start all) start current) where
      match_leaf-HasReasons :
          (i : ℕ) (inc : CheckpointInclusion) (s : Included)
          → get_elem? batch.checkpoints i ≡ some inc
          → verify_inclusion inc batch.root_blake3 ≡ ok tt
          → HasReasons (IsIncluded start batch) s.1
          → HasReasons (IsIncluded start batch) (match_leaf current inc s).1
      unfolding match_leaf compare_leaf
      match_leaf-HasReasons i inc s listed proved rs =
          split (find_digest inc.checkpoint_id current) refl
        where
          split :
              (out : Option (Str × Bytes))
              → find_digest inc.checkpoint_id current ≡ out
              → HasReasons (IsIncluded start batch) (compare_leaf inc out s).1
          split none absent = rs
          split (some found) there =
              let leaf = or_zeros (hex_decode_digest inc.leaf) in
              elim (Bool-cases (str_eq leaf found.1)) [
                | inr other ↦ rw other rs
                | inl same ↦
                    let (j, stream_data, stream_listed, digest) =
                      find_digest_sound (IsTimed start all) inc.checkpoint_id start current grown
                        there in
                    rw same (
                      HasReasons-push (IsIncluded start batch) s.1 (found.0, inc.checkpoint_id) rs
                        (record {
                          index = i;
                          inclusion = inc;
                          listed = listed;
                          names = refl;
                          proved = proved;
                          stream = j;
                          stream_data = stream_data;
                          stream_listed = stream_listed;
                          digest = digest ∙ ap some (sym (str_eq→eq leaf found.1 same));
                        }))
              ]

      check_inclusions-HasReasons :
          (incs : List CheckpointInclusion) (s : Included)
          → ((i : ℕ) (inc : CheckpointInclusion)
              → get_elem? incs i ≡ some inc
              → (j : ℕ) × (get_elem? batch.checkpoints j ≡ some inc))
          → HasReasons (IsIncluded start batch) s.1
          → HasReasons
              (IsIncluded start batch)
              (check_inclusions current batch.root_blake3 incs s).1
      unfolding check_inclusions add_inclusion
      check_inclusions-HasReasons [] s within rs = rs
      check_inclusions-HasReasons (inc ∷ incs) s within rs =
          check_inclusions-HasReasons incs _ (λ i q listed. within (suc i) q listed)
            (split (verify_inclusion inc batch.root_blake3) refl)
        where
          split :
              (out : Result EvidenceError (Unit {0}))
              → verify_inclusion inc batch.root_blake3 ≡ out
              → HasReasons (IsIncluded start batch) (add_inclusion current inc out s).1
          split (err problem) failed = rs
          split (ok u) proved =
              let (j, listed) = within 0 inc refl in match_leaf-HasReasons j inc s listed proved rs

    -- what is included is timed when the batch is stamped
    included-IsTimed :
        (i : ℕ) (batch : AnchorBatch) (included : List (Str × Str))
        → get_elem? all i ≡ some batch
        → IsStamped batch
        → HasReasons (IsIncluded start batch) included
        → HasReasons (IsTimed start all) included
    included-IsTimed i batch [] listed stamped rs = tt
    included-IsTimed i batch (b ∷ included) listed stamped rs = (
      record { index = i; batch = batch; listed = listed; included = rs.0; stamped = stamped },
      included-IsTimed i batch included listed stamped rs.1,
    )

    -- the invariant of the loop
    abbrev Grown : Anchoring → Type 0
    Grown a = AllGrow (IsTimed start all) start a.streams

    module _ (i : ℕ) (batch : AnchorBatch) (listed : get_elem? all i ≡ some batch)
        (root_raw : Bytes) (root_read : hex_decode_digest batch.root_blake3 ≡ ok root_raw)
        (root_bound : sha256_hex root_raw ≡ batch.root_sha256) where
      check_token-Grown :
          (path : Str) (included : List (Str × Str)) (a : Anchoring)
          → batch.tsr_file ≡ some path
          → HasReasons (IsIncluded start batch) included
          → Grown a
          → Grown (check_token entry_bytes batch.root_sha256 path included a)
      unfolding check_token accept_batch
      check_token-Grown path included a has rs g = imprinted (imprint_of batch.root_sha256) refl
        where
          verified :
              (sha bytes : Bytes)
              → imprint_of batch.root_sha256 ≡ ok sha
              → entry_bytes path ≡ ok bytes
              → (out : Result TsaError VerifiedToken) → verify_token bytes sha ≡ out
              → Grown (accept_batch entry_bytes included out a)
          verified sha bytes sha_read read (err problem) failed = g
          verified sha bytes sha_read read (ok token) accepted =
              mark_all-AllGrow (IsTimed start all) included start a.streams
                (included-IsTimed i batch included listed
                  (record {
                    root_raw = root_raw;
                    root_read = root_read;
                    root_bound = root_bound;
                    path = path;
                    has_token = has;
                    bytes = bytes;
                    token_read = read;
                    imprint = sha;
                    imprint_read = sha_read;
                    token = token;
                    verified = accepted;
                  })
                  rs)
                g

          fetched :
              (sha : Bytes)
              → imprint_of batch.root_sha256 ≡ ok sha
              → (out : Result BundleError Bytes) → entry_bytes path ≡ out
              → Grown (elim out [
                | err problem ↦ record a {
                  findings = add error (codes "anchor_token_missing") a.findings;
                }
                | ok bytes ↦ accept_batch entry_bytes included (verify_token bytes sha) a
              ])
          fetched sha sha_read (err problem) missing = g
          fetched sha sha_read (ok bytes) read =
              verified sha bytes sha_read read (verify_token bytes sha) refl

          imprinted :
              (out : Result EvidenceError Bytes)
              → imprint_of batch.root_sha256 ≡ out
              → Grown (elim out [
                | err problem ↦ a
                | ok sha ↦ elim (entry_bytes path) [
                  | err problem ↦ record a {
                    findings = add error (codes "anchor_token_missing") a.findings;
                  }
                  | ok bytes ↦ accept_batch entry_bytes included (verify_token bytes sha) a
                ]
              ])
          imprinted (err problem) failed = g
          imprinted (ok sha) sha_read = fetched sha sha_read (entry_bytes path) refl

      check_bound_batch-Grown :
          (a : Anchoring) → Grown a → Grown (check_bound_batch entry_bytes batch a)
      unfolding check_bound_batch check_batch_token
      check_bound_batch-Grown a g = split batch.tsr_file refl
        where
          included : Included
          included = check_inclusions a.streams batch.root_blake3 batch.checkpoints (a.findings, [])

          split :
              (out : Option Str)
              → batch.tsr_file ≡ out
              → Grown (
                  check_batch_token entry_bytes batch out included.1
                    (record a { findings = included.0 }))
          split none pending = g
          split (some path) has =
              check_token-Grown path included.1 (record a { findings = included.0 }) has
                (check_inclusions-HasReasons batch a.streams g batch.checkpoints (a.findings, [])
                  (λ j q at. (j, at)) tt)
                g

    check_batch-Grown :
        (i : ℕ) (batch : AnchorBatch) (a : Anchoring)
        → get_elem? all i ≡ some batch
        → Grown a
        → Grown (check_batch entry_bytes batch a)
    unfolding check_batch
    check_batch-Grown i batch a listed g = split (hex_decode_digest batch.root_blake3) refl
      where
        split :
            (out : Result EvidenceError Bytes)
            → hex_decode_digest batch.root_blake3 ≡ out
            → Grown (elim out [
              | err problem ↦ record a { findings = add error (codes "anchor_invalid") a.findings }
              | ok root_raw ↦
                  if str_eq (sha256_hex root_raw) batch.root_sha256
                  then check_bound_batch entry_bytes batch a
                  else record a {
                    findings = add error (codes "anchor_digest_binding_broken") a.findings;
                  }
            ])
        split (err problem) failed = g
        split (ok root_raw) read =
            elim (Bool-cases (str_eq (sha256_hex root_raw) batch.root_sha256)) [
              | inr broken ↦ rw broken g
              | inl bound ↦
                  rw bound
                    (check_bound_batch-Grown i batch listed root_raw read (str_eq→eq _ _ bound) a g)
            ]

    check_batches-Grown :
        (batches : List AnchorBatch) (a : Anchoring)
        → ((i : ℕ) (batch : AnchorBatch)
            → get_elem? batches i ≡ some batch
            → (j : ℕ) × (get_elem? all j ≡ some batch))
        → Grown a
        → Grown (check_batches entry_bytes batches a)
    unfolding check_batches
    check_batches-Grown [] a within g = g
    check_batches-Grown (batch ∷ batches) a within g =
        let (j, listed) = within 0 batch refl in
        check_batches-Grown batches (check_batch entry_bytes batch a)
          (λ i q at. within (suc i) q at) (check_batch-Grown j batch a listed g)

  module _ ⦃e : Ed25519⦄ where
    -- `verify_anchors` keeps the streams and only adds anchored numbers to them. Each number that is
    -- new is attested and in the range of a checkpoint, whose digest has a valid proof of inclusion
    -- in a batch that a token of the bundle binds.
    pub verify_anchors_sound :
        (proofs : AnchorProofs) (keys : KeyMap) (findings : List Finding) (streams : Streams)
        → AllGrow
            (IsTimed streams proofs.batches)
            streams
            (verify_anchors entry_bytes proofs keys findings streams).streams
    unfolding verify_anchors
    verify_anchors_sound proofs keys findings streams =
        let start : Anchoring = record {
          findings = findings;
          streams = streams;
          earliest = none;
        } in
        subst (λ x. AllGrow (IsTimed streams proofs.batches) streams x)
          (sym (
            check_days-streams entry_bytes keys proofs.daily
              (check_batches entry_bytes proofs.batches start)))
          (check_batches-Grown streams proofs.batches proofs.batches start (λ i q at. (i, at))
            (AllGrow-refl (IsTimed streams proofs.batches) streams))
