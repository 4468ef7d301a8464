-- ===== src/Merkle/Nodes.antt =====
-- Leaves and nodes are told apart by their prefixes, and nodes by their children.
use sealr_verify.Common.{
  ℕ, zero, suc, ◌≤◌, ◌≡◌, ◌⊎◌, List, [], ◌∷◌, ◌++◌, arith, inl, inr, length, append_injective,
}
use sealr_verify.Common.Text.{Bytes}
use sealr_verify.Deps.{Digests}
use sealr_verify.Hash.Collision.{Clash, blake3_injective}
use sealr_verify.Merkle.{leaf_hash, node_hash, subtree_root}

-- what is hashed for a leaf, and for a node
abbrev pub leaf_input : Bytes → Bytes
leaf_input x = 0x00 ∷ x

abbrev pub node_input : Bytes → Bytes → Bytes
node_input a b = 0x01 ∷ (a ++ b)

module _ ⦃d : Digests⦄ where
  pub leaf-ne-node :
      (x a b : Bytes) → leaf_hash x ≡ node_hash a b → Clash (leaf_input x) (node_input a b)
  unfolding leaf_hash node_hash
  leaf-ne-node x a b h = ((λ e. absurd (cc)), h)

  pub leaf_hash_injective :
      (x y : Bytes) → leaf_hash x ≡ leaf_hash y → (x ≡ y) ⊎ Clash (leaf_input x) (leaf_input y)
  unfolding leaf_hash
  leaf_hash_injective x y h = elim (blake3_injective (0x00 ∷ x) (0x00 ∷ y) h) [
    | inl e ↦ inl (cc)
    | inr c ↦ inr c
  ]

  pub node_hash_injective :
      (a b u v : Bytes)
      → length a ≡ length u
      → node_hash a b ≡ node_hash u v
      → ((a ≡ u) × (b ≡ v)) ⊎ Clash (node_input a b) (node_input u v)
  unfolding node_hash
  node_hash_injective a b u v l h = elim (blake3_injective (0x01 ∷ (a ++ b)) (0x01 ∷ (u ++ v)) h) [
    | inl e ↦ inl (append_injective a u l (cc))
    | inr c ↦ inr c
  ]

  pub length-leaf_hash : (x : Bytes) → length (leaf_hash x) ≡ 32
  unfolding leaf_hash
  length-leaf_hash x = d.length-blake3 (0x00 ∷ x)

  pub length-node_hash : (a b : Bytes) → length (node_hash a b) ≡ 32
  unfolding node_hash
  length-node_hash a b = d.length-blake3 (0x01 ∷ (a ++ b))

  pub length-subtree_root :
      (f : ℕ) (l : List Bytes) → 1 ≤ length l → length l ≤ f → length (subtree_root f l) ≡ 32
  unfolding subtree_root
  length-subtree_root zero l p h = absurd (omega arith)
  length-subtree_root (suc f) [] p h = absurd (omega arith)
  length-subtree_root (suc f) (x ∷ []) p h = length-leaf_hash x
  length-subtree_root (suc f) (x ∷ y ∷ l) p h = length-node_hash _ _

  pub leaf-ne-nil : (x : Bytes) → leaf_hash x ≡ d.blake3 [] → Clash (leaf_input x) []
  unfolding leaf_hash
  leaf-ne-nil x h = ((λ e. absurd (cc)), h)

  pub node-ne-nil : (a b : Bytes) → node_hash a b ≡ d.blake3 [] → Clash (node_input a b) []
  unfolding node_hash
  node-ne-nil a b h = ((λ e. absurd (cc)), h)
