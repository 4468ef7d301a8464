-- ===== src/Tests/Files.antt =====
-- Signatures, commitments, checkpoints, batches and reports on small inputs.
use sealr_verify.Common.{
  ◌≢◌, ℕ, ◌≡◌, ◌≤◌, ◌↔◌, refl, ◌⊎◌, true, none, some, List, [], ◌∷◌, ◌++◌, length, get_elem?, false,
}
use sealr_verify.Common.Text.{Bytes, Str, codes, str_eq, utf8}
use sealr_verify.Common.Result.{Result, ok, err, EvidenceError, collect}
use sealr_verify.Hash.{hex_encode, hex_decode_digest, hex_decode, try_into}
use sealr_verify.Hash.Collision.{CollisionIn}
use sealr_verify.Merkle.Inputs.{RootHashes}
use sealr_verify.Merkle.Soundness.{ProofHashes}
use sealr_verify.Merkle.{ProofStep}
use sealr_verify.Record.Types.{Record}
use sealr_verify.Merkle
use sealr_verify.Merkle.{
  ProofStep, split_point, subtree_root, leaf_hash, node_hash, merkle_root, inclusion_proof,
}
use sealr_verify.Json.{null}
use sealr_verify.Jcs.{to_jcs_bytes}
use sealr_verify.Keys.{SigningKey, verifying_key, sign_jcs, verify_jcs}
use sealr_verify.Keys.RoundTrip.{verify_jcs-sign_jcs}
use sealr_verify.Commitment.{commit}
use sealr_verify.Commitment.Binding.{verify_commitment-commit, verify_commitment_binding}
use sealr_verify.Revocation.{RevocationEntry, SignedRevocationList, is_revoked_at}
use sealr_verify.Revocation.Boundary.{Applies, is_revoked_at_iff}
use sealr_verify.Checkpoint.{
  CheckpointNote, SignedCheckpoint, build_note, verify_root, hashes_of, last,
  merkle_root_of_record_hashes, not_contiguous,
}
use sealr_verify.Checkpoint.Roots.{verify_root-build_note, verify_root_binding}
use sealr_verify.Bundle.Anchors.{
  to_step, AnchorBatch, CheckpointInclusion, build_batch, verify_inclusion, inclusions_from,
  inclusion_at,
}
use sealr_verify.Bundle.Anchors.Batches.{verify_inclusion-build_batch, inclusion_sound}
use sealr_verify.Projection.{sanitize}
use sealr_verify.Projection.Bounds.{sanitize-bounded}
use sealr_verify.Report.{Finding, info, error, compute_result, exit_code}
use sealr_verify.Report.Result.{exit_code_fail_iff}
use sealr_verify.Tests.Toy.{
  length-toy_hash, toy_hash-IsByte, toy_digests, toy_ed25519, toy_chrono, toy_hash,
}
use sealr_verify.Tests.Chains.{sample}

abbrev pub a_key : SigningKey
a_key = record { seed = 1 ∷ 2 ∷ [] }

abbrev pub value_or_nil : Result EvidenceError Str → Str
value_or_nil (ok s) = s
value_or_nil (err e) = []

abbrev a_signature : Str
a_signature = value_or_nil (sign_jcs a_key null)

abbrev a_salt : Bytes
a_salt = 5 ∷ []

abbrev a_payload : Bytes
a_payload = 7 ∷ []

verify_commitment_binding_example :
    ((a_payload ≡ a_payload) × (a_salt ≡ a_salt))
    ⊎ ((a_salt ++ a_payload ≢ a_salt ++ a_payload)
        × (toy_hash 32 (a_salt ++ a_payload) ≡ toy_hash 32 (a_salt ++ a_payload)))
verify_commitment_binding_example =
    verify_commitment_binding a_payload a_payload a_salt a_salt (commit a_payload a_salt) refl
      (verify_commitment-commit a_payload a_salt) (verify_commitment-commit a_payload a_salt)

abbrev revoked : SignedRevocationList
revoked = record {
  list = record {
    updated_at = [];
    revocations =
        record {
          cert_fingerprint = codes "ab";
          effective_at = codes "s";
          reason = codes "rotation";
        }
        ∷ [];
  };
  console_key_id = [];
  signature = [];
}

is_revoked_at_iff_example : (is_revoked_at revoked (codes "ab") 2_000_000_000 ≡ true) ↔ (
    (i : ℕ) × (r : RevocationEntry) × (get_elem? revoked.list.revocations i ≡ some r)
    × Applies (codes "ab") 2_000_000_000 r)
is_revoked_at_iff_example = is_revoked_at_iff revoked (codes "ab") 2_000_000_000

abbrev two_findings : List Finding
two_findings =
    record { severity = info; class = codes "root_source"; stream_id = none; seq = none }
    ∷ record { severity = error; class = codes "chain_link_broken"; stream_id = none; seq = some 3 }
    ∷ []

exit_code_fail_iff_example :
    (exit_code (compute_result two_findings) ≡ 11)
    ↔ ((i : ℕ) × (f : Finding) × (get_elem? two_findings i ≡ some f) × (f.severity ≡ error))
exit_code_fail_iff_example = exit_code_fail_iff two_findings

sanitize-bounded_example : length (utf8 (sanitize (codes "abcdef") 3)) ≤ 9
sanitize-bounded_example = sanitize-bounded (codes "abcdef") 3

signed_null : sign_jcs a_key null ≡ ok a_signature
unfolding sign_jcs to_jcs_bytes
signed_null = refl

verify_jcs-sign_jcs_example : verify_jcs (verifying_key a_key) null a_signature ≡ ok tt
verify_jcs-sign_jcs_example = verify_jcs-sign_jcs a_key null a_signature signed_null

abbrev pub hashed : Record
hashed = record (sample (codes "s") 1) { record_hash = hex_encode (toy_hash 32 (4 ∷ [])) }

abbrev pub empty_note : CheckpointNote
empty_note = record {
  checkpoint_id = [];
  stream_id = [];
  segment_id = [];
  seq_from = 0;
  seq_to = 0;
  chain_head_hash = [];
  merkle_root = [];
  tree_size = 0;
  ts_wall = [];
  recorder_cert_fingerprint = [];
  prev_checkpoint_hash = none;
}

abbrev pub note_of : Result EvidenceError CheckpointNote → CheckpointNote
note_of (ok n) = n
note_of (err e) = empty_note

abbrev pub a_note : CheckpointNote
a_note = note_of (build_note (codes "c") (hashed ∷ []) (codes "s") (codes "f"))

abbrev a_checkpoint : SignedCheckpoint
a_checkpoint = record { note = a_note; signature = [] }

note_built : build_note (codes "c") (hashed ∷ []) (codes "s") (codes "f") ≡ ok a_note
unfolding build_note not_contiguous merkle_root_of_record_hashes hex_decode_digest hex_decode
    try_into hex_encode utf8 toy_hash merkle_root
note_built = refl

verify_root-build_note_example : verify_root a_checkpoint (hashes_of (hashed ∷ [])) ≡ ok tt
verify_root-build_note_example =
    verify_root-build_note (codes "c") (hashed ∷ []) (codes "s") (codes "f") [] a_note note_built

verify_root_binding_example :
    ((length (hashes_of (hashed ∷ [])) ≡ length (hashes_of (hashed ∷ [])))
      × (collect hex_decode_digest (hashes_of (hashed ∷ []))
          ≡ collect hex_decode_digest (hashes_of (hashed ∷ [])))
      × (last (hashes_of (hashed ∷ [])) ≡ last (hashes_of (hashed ∷ []))))
    ⊎ ((l : List Bytes) × (m : List Bytes) × (collect hex_decode_digest (hashes_of (hashed ∷ []))
          ≡ ok l)
        × (collect hex_decode_digest (hashes_of (hashed ∷ [])) ≡ ok m)
        × CollisionIn (RootHashes l) (RootHashes m))
verify_root_binding_example =
    verify_root_binding a_checkpoint (hashes_of (hashed ∷ [])) (hashes_of (hashed ∷ []))
      (verify_root-build_note (codes "c") (hashed ∷ []) (codes "s") (codes "f") [] a_note
        note_built)
      (verify_root-build_note (codes "c") (hashed ∷ []) (codes "s") (codes "f") [] a_note
        note_built)

abbrev entries : List (Str × Bytes)
entries = (codes "a", toy_hash 32 (1 ∷ [])) ∷ (codes "b", toy_hash 32 (2 ∷ [])) ∷ []

abbrev no_batch : AnchorBatch
no_batch = record {
  batch_id = [];
  created_at = [];
  root_blake3 = [];
  root_sha256 = [];
  tsr_file = none;
  qualified = false;
  checkpoints = [];
}

abbrev no_inclusion : CheckpointInclusion
no_inclusion = record { checkpoint_id = []; leaf = []; leaf_index = 0; tree_size = 0; proof = [] }

abbrev batch_of : Result EvidenceError AnchorBatch → AnchorBatch
batch_of (ok b) = b
batch_of (err e) = no_batch

abbrev a_batch : AnchorBatch
a_batch = batch_of (build_batch (codes "b1") (codes "s") entries false)

abbrev head_or : List CheckpointInclusion → CheckpointInclusion
head_or [] = no_inclusion
head_or (x ∷ xs) = x

batch_built :
    (build_batch (codes "b1") (codes "s") entries false ≡ ok a_batch)
    × (get_elem? a_batch.checkpoints 0 ≡ some (head_or a_batch.checkpoints))
unfolding build_batch inclusions_from inclusion_at inclusion_proof
batch_built = (refl, refl)

verify_inclusion-build_batch_example :
    verify_inclusion (head_or a_batch.checkpoints) a_batch.root_blake3 ≡ ok tt
verify_inclusion-build_batch_example =
    verify_inclusion-build_batch (codes "b1") (codes "s") entries false a_batch 0
      (head_or a_batch.checkpoints)
      (
        (toy_hash-IsByte 32 (1 ∷ []), length-toy_hash 32 (1 ∷ [])),
        ((toy_hash-IsByte 32 (2 ∷ []), length-toy_hash 32 (2 ∷ [])), tt),
      )
      batch_built.0 batch_built.1

abbrev tree : List Bytes
tree = toy_hash 32 (1 ∷ []) ∷ []

abbrev only : CheckpointInclusion
only = record {
  checkpoint_id = codes "a";
  leaf = hex_encode (toy_hash 32 (1 ∷ []));
  leaf_index = 0;
  tree_size = 1;
  proof = [];
}

only_verifies : verify_inclusion only (hex_encode (merkle_root tree)) ≡ ok tt
unfolding verify_inclusion Merkle.verify_inclusion hex_decode_digest hex_decode try_into hex_encode
    utf8 toy_hash merkle_root subtree_root leaf_hash str_eq
only_verifies = refl

inclusion_sound_example :
    ((leaf : Bytes) × (hex_decode_digest only.leaf ≡ ok leaf)
      × ((i : ℕ) × (get_elem? tree i ≡ some leaf)))
    ⊎ ((leaf : Bytes) × (proof : List ProofStep) × (hex_decode_digest only.leaf ≡ ok leaf)
        × (collect to_step only.proof ≡ ok proof)
        × CollisionIn (ProofHashes leaf proof) (RootHashes tree))
inclusion_sound_example = inclusion_sound tree only only_verifies
