-- ===== src/Merkle.antt =====
-- crates/evidence/src/merkle.rs: the RFC 6962 tree over BLAKE3, audit paths and their check.
pub mod Split
pub mod Shape
pub mod Standard
pub mod Inclusion
pub mod Nodes
pub mod Inputs
pub mod Soundness
pub mod Width
pub mod Binding
use sealr_verify.Common.{
  ℕ, zero, suc, ◌-◌, ◌*◌, Bool, true, false, List, [], ◌∷◌, ◌++◌, ltb, leb, if◌then◌else◌, length,
  take, drop,
}
use sealr_verify.Common.Text.{Bytes, str_eq}
use sealr_verify.Common.Result.{Result, ok, err, EvidenceError, merkle_proof}
use sealr_verify.Deps.{Digests}

-- the loop of `split_point`, with the rounds that are left
grow : ℕ → ℕ → ℕ → ℕ
grow zero k n = k
grow (suc f) k n = elim (ltb (k * 2) n) [ true ↦ grow f (k * 2) n | false ↦ k ]

-- the largest power of two below `n`; each round at least adds one to `k`, so `n` rounds are enough
unfoldable pub split_point : ℕ → ℕ
unfolding grow
split_point n = grow n 1 n

-- `ProofStep`
pub record ProofStep : Type 0 where
  pub sibling : Bytes
  pub sibling_on_left : Bool

module _ ⦃d : Digests⦄ where
  unfoldable pub leaf_hash : Bytes → Bytes
  leaf_hash leaf_bytes = d.blake3 (0x00 ∷ leaf_bytes)

  unfoldable pub node_hash : Bytes → Bytes → Bytes
  node_hash left right = d.blake3 (0x01 ∷ (left ++ right))

  -- The fuel bounds the depth; the number of leaves is enough (`Shape`). No call has no leaf.
  unfoldable pub subtree_root : ℕ → List Bytes → Bytes
  subtree_root zero leaves = []
  subtree_root (suc f) [] = []
  subtree_root (suc f) (x ∷ []) = leaf_hash x
  subtree_root (suc f) (x ∷ y ∷ rest) =
      let leaves = x ∷ y ∷ rest in
      let k = split_point (length leaves) in
      node_hash (subtree_root f (take k leaves)) (subtree_root f (drop k leaves))

  unfoldable pub merkle_root : List Bytes → Bytes
  merkle_root [] = d.blake3 []
  merkle_root (x ∷ rest) = subtree_root (length (x ∷ rest)) (x ∷ rest)

  -- the steps that `path` pushes, innermost first
  unfoldable pub path : ℕ → List Bytes → ℕ → List ProofStep
  path zero leaves index = []
  path (suc f) [] index = []
  path (suc f) (x ∷ []) index = []
  path (suc f) (x ∷ y ∷ rest) index =
      let leaves = x ∷ y ∷ rest in
      let k = split_point (length leaves) in
      let left =
        path f (take k leaves) index
        ++ record { sibling = subtree_root f (drop k leaves); sibling_on_left = false } ∷ [] in
      let right =
        path f (drop k leaves) (index - k)
        ++ record { sibling = subtree_root f (take k leaves); sibling_on_left = true } ∷ [] in
      if ltb index k then left else right

  unfoldable pub inclusion_proof : List Bytes → ℕ → Result EvidenceError (List ProofStep)
  unfolding path
  inclusion_proof leaves index =
      if leb (length leaves) index then err merkle_proof else ok (path (length leaves) leaves index)

  unfoldable pub step_up : Bytes → ProofStep → Bytes
  step_up hash step =
      if step.sibling_on_left then node_hash step.sibling hash else node_hash hash step.sibling

  -- the loop of `verify_inclusion` over the proof
  unfoldable pub climb : Bytes → List ProofStep → Bytes
  unfolding step_up
  climb hash [] = hash
  climb hash (step ∷ proof) = climb (step_up hash step) proof

  unfoldable pub verify_inclusion :
      Bytes → ℕ → ℕ → List ProofStep → Bytes → Result EvidenceError (Unit {0})
  unfolding climb
  verify_inclusion leaf_bytes index tree_size proof root =
      if leb tree_size index
      then err merkle_proof
      else if str_eq (climb (leaf_hash leaf_bytes) proof) root
      then ok tt
      else err merkle_proof
