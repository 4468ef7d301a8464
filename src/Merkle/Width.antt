-- ===== src/Merkle/Width.antt =====
-- Roots are digests: 32 bytes. `path` gives digests as siblings.
use sealr_verify.Common.{ℕ, zero, suc, ◌≡◌, List, [], ◌∷◌, arith, length, All}
use sealr_verify.Common.Text.{Bytes, IsByte}
use sealr_verify.Deps.{Digests}
use sealr_verify.Merkle.{leaf_hash, node_hash, subtree_root, merkle_root}
use sealr_verify.Merkle.Nodes.{length-subtree_root}

module _ ⦃d : Digests⦄ where
  pub subtree_root-IsByte : (f : ℕ) (l : List Bytes) → All IsByte (subtree_root f l)
  unfolding subtree_root leaf_hash node_hash
  subtree_root-IsByte zero l = tt
  subtree_root-IsByte (suc f) [] = tt
  subtree_root-IsByte (suc f) (x ∷ []) = d.blake3-IsByte _
  subtree_root-IsByte (suc f) (x ∷ y ∷ l) = d.blake3-IsByte _

  pub merkle_root-IsByte : (l : List Bytes) → All IsByte (merkle_root l)
  unfolding merkle_root
  merkle_root-IsByte [] = d.blake3-IsByte []
  merkle_root-IsByte (x ∷ l) = subtree_root-IsByte (length (x ∷ l)) (x ∷ l)

  pub length-merkle_root : (l : List Bytes) → length (merkle_root l) ≡ 32
  unfolding merkle_root
  length-merkle_root [] = d.length-blake3 []
  length-merkle_root (x ∷ l) =
      length-subtree_root (length (x ∷ l)) (x ∷ l) (omega arith) (omega arith)
