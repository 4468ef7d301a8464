-- ===== src/Bundle/Anchors.antt =====
-- crates/bundle/src/anchors.rs: batches of checkpoint digests under one root, and stored proofs.
pub mod Batches
use sealr_verify.Common.{ℕ, ◌+◌, Bool, Option, none, List, [], ◌∷◌, map, length}
use sealr_verify.Common.Text.{Bytes, Str}
use sealr_verify.Common.Result.{Result, ok, EvidenceError, ◌>>=◌, collect}
use sealr_verify.Deps.{Digests}
use sealr_verify.Hash.{hex_encode, hex_decode_digest, sha256_hex}
use sealr_verify.Merkle.{ProofStep, merkle_root, inclusion_proof}
use sealr_verify.Merkle

pub record StoredProofStep : Type 0 where
  pub sibling : Str
  pub left : Bool

pub record CheckpointInclusion : Type 0 where
  pub checkpoint_id : Str
  pub leaf : Str
  pub leaf_index : ℕ
  pub tree_size : ℕ
  pub proof : List StoredProofStep

pub record AnchorBatch : Type 0 where
  pub batch_id : Str
  pub created_at : Str
  pub root_blake3 : Str
  pub root_sha256 : Str
  pub tsr_file : Option Str
  pub qualified : Bool
  pub checkpoints : List CheckpointInclusion

pub record DailyRoot : Type 0 where
  pub day : Str
  pub root_blake3 : Str
  pub root_sha256 : Str
  pub prev_day_hash : Option Str
  pub batch_roots : List Str
  pub qts_file : Option Str
  pub signature : Option Str
  pub console_key_id : Option Str

pub record AnchorProofs : Type 0 where
  pub batches : List AnchorBatch
  pub daily : List DailyRoot

unfoldable pub to_step : StoredProofStep → Result EvidenceError ProofStep
to_step s = do
  sibling ← hex_decode_digest s.sibling
  ok (record { sibling = sibling; sibling_on_left = s.left })

unfoldable pub from_step : ProofStep → StoredProofStep
from_step step = record { sibling = hex_encode step.sibling; left = step.sibling_on_left }

module _ ⦃d : Digests⦄ where
  -- one turn of the loop of `build_batch`
  unfoldable pub inclusion_at :
      List Bytes → ℕ → Str × Bytes → Result EvidenceError CheckpointInclusion
  inclusion_at leaves i entry = do
    proof ← inclusion_proof leaves i
    ok (record {
      checkpoint_id = entry.0;
      leaf = hex_encode entry.1;
      leaf_index = i;
      tree_size = length leaves;
      proof = map from_step proof;
    })

  -- the loop of `build_batch` over the entries from number `i`
  unfoldable pub inclusions_from :
      List Bytes → ℕ → List (Str × Bytes) → Result EvidenceError (List CheckpointInclusion)
  inclusions_from leaves i [] = ok []
  inclusions_from leaves i (entry ∷ rest) = do
    inclusion ← inclusion_at leaves i entry
    others ← inclusions_from leaves (i + 1) rest
    ok (inclusion ∷ others)

  unfoldable pub build_batch :
      Str → Str → List (Str × Bytes) → Bool → Result EvidenceError AnchorBatch
  build_batch batch_id created_at checkpoint_leaves qualified =
      let leaves = map (λ x. x.1) checkpoint_leaves in
      let root = merkle_root leaves in
      (do
        checkpoints ← inclusions_from leaves 0 checkpoint_leaves
        ok (record {
          batch_id = batch_id;
          created_at = created_at;
          root_blake3 = hex_encode root;
          root_sha256 = sha256_hex root;
          tsr_file = none;
          qualified = qualified;
          checkpoints = checkpoints;
        }))

  -- an index or a size of 64 bits fits into `usize`
  unfoldable pub verify_inclusion : CheckpointInclusion → Str → Result EvidenceError (Unit {0})
  verify_inclusion inclusion root_blake3_hex = do
    leaf ← hex_decode_digest inclusion.leaf
    root ← hex_decode_digest root_blake3_hex
    proof ← collect to_step inclusion.proof
    Merkle.verify_inclusion leaf inclusion.leaf_index inclusion.tree_size proof root
