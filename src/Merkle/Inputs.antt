-- ===== src/Merkle/Inputs.antt =====
-- The texts that BLAKE3 is applied to when a root is computed.
use sealr_verify.Common.{ℕ, zero, suc, ◌≡◌, ◌⊎◌, List, [], ◌∷◌, length}
use sealr_verify.Common.Text.{Bytes}
use sealr_verify.Deps.{Digests}
use sealr_verify.Hash.Collision.{CollisionIn}
use sealr_verify.Merkle.{subtree_root}
use sealr_verify.Merkle.Shape.{left_part, right_part}
use sealr_verify.Merkle.Nodes.{leaf_input, node_input}

module _ ⦃d : Digests⦄ where
  -- the texts that `subtree_root` hashes
  abbrev pub SubtreeHashes : ℕ → List Bytes → Bytes → Type 0
  SubtreeHashes zero l b = ⊥
  SubtreeHashes (suc f) [] b = ⊥
  SubtreeHashes (suc f) (x ∷ []) b = b ≡ leaf_input x
  SubtreeHashes (suc f) (x ∷ y ∷ l) b =
      (b ≡ node_input (subtree_root f (left_part x y l)) (subtree_root f (right_part x y l)))
      ⊎ (SubtreeHashes f (left_part x y l) b ⊎ SubtreeHashes f (right_part x y l) b)

  -- the texts that `merkle_root` hashes
  abbrev pub RootHashes : List Bytes → Bytes → Type 0
  RootHashes [] b = b ≡ []
  RootHashes (x ∷ l) b = SubtreeHashes (length (x ∷ l)) (x ∷ l) b

  pub CollisionIn-map :
      (P Q P' Q' : Bytes → Type 0)
      → ((b : Bytes) → P b → P' b)
      → ((b : Bytes) → Q b → Q' b)
      → CollisionIn P Q
      → CollisionIn P' Q'
  CollisionIn-map P Q P' Q' f g (a, b, p, q, c) = (a, b, f a p, g b q, c)
