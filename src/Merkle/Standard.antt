-- ===== src/Merkle/Standard.antt =====
-- The tree hash as section 2.1 of RFC 6962 defines it, with BLAKE3 for its hash function.
use sealr_verify.Common.{
  ℕ, zero, suc, ◌^◌, ◌≤◌, ◌≡◌, subst, sym, ◌∙◌, List, [], ◌∷◌, ◌++◌, arith, length,
  take-append-drop,
}
use sealr_verify.Common.Text.{Bytes}
use sealr_verify.Deps.{Digests}
use sealr_verify.Merkle.{leaf_hash, node_hash, split_point, subtree_root, merkle_root}
use sealr_verify.Merkle.Split.{split_point_lem}
use sealr_verify.Merkle.Shape.{
  left_part, right_part, length-left_part, length-right_part, merkle_root_step,
}

module _ ⦃d : Digests⦄ where
  -- `MTH(D[n])`: a tree of two leaves or more is cut behind a power of two, which is less than the
  -- number of leaves and at least half of it.
  pub data IsTreeHash : List Bytes → Bytes → Type 0 where
    no_leaves : IsTreeHash [] (d.blake3 [])
    one_leaf : (x : Bytes) → IsTreeHash (x ∷ []) (d.blake3 (0x00 ∷ x))
    two_trees :
        (i : ℕ) (left right : List Bytes) (a b : Bytes)
        → length left ≡ 2 ^ i
        → 1 ≤ length right
        → length right ≤ length left
        → IsTreeHash left a
        → IsTreeHash right b
        → IsTreeHash (left ++ right) (d.blake3 (0x01 ∷ (a ++ b)))

  fuelled-IsTreeHash :
      (f : ℕ) (leaves : List Bytes) → length leaves ≤ f → IsTreeHash leaves (merkle_root leaves)
  fuelled-IsTreeHash f [] le = unfold merkle_root in no_leaves
  fuelled-IsTreeHash f (x ∷ []) le = unfold merkle_root subtree_root leaf_hash in one_leaf x
  fuelled-IsTreeHash zero (x ∷ y ∷ rest) le = absurd (omega arith)
  fuelled-IsTreeHash (suc f) (x ∷ y ∷ rest) le =
      let (i, power, some_of, less, most) = split_point_lem (length (x ∷ y ∷ rest)) (omega arith) in
      let lp = length-left_part x y rest in
      let rp = length-right_part x y rest in
      let left = left_part x y rest in
      let right = right_part x y rest in
      let whole : left ++ right ≡ x ∷ y ∷ rest =
        take-append-drop (split_point (length (x ∷ y ∷ rest))) (x ∷ y ∷ rest) in
      let node =
        two_trees i left right (merkle_root left) (merkle_root right) (lp ∙ power) (omega arith)
          (omega arith) (fuelled-IsTreeHash f left (omega arith))
          (fuelled-IsTreeHash f right (omega arith)) in
      let root : d.blake3 (0x01 ∷ (merkle_root left ++ merkle_root right))
          ≡ merkle_root (x ∷ y ∷ rest) =
        unfold node_hash in sym ((merkle_root_step x y rest).1) in
      subst (λ t. IsTreeHash (x ∷ y ∷ rest) t) root
        (subst (λ l. IsTreeHash l (d.blake3 (0x01 ∷ (merkle_root left ++ merkle_root right)))) whole
          node)

  -- The root of a list of leaves is its tree hash by RFC 6962: the digest of nothing without leaves,
  -- of the byte 0 and the leaf for one, and else of the byte 1 and the tree hashes of the leaves on
  -- both sides of the largest power of two below their number.
  pub merkle_root-IsTreeHash : (leaves : List Bytes) → IsTreeHash leaves (merkle_root leaves)
  merkle_root-IsTreeHash leaves = fuelled-IsTreeHash (length leaves) leaves (omega arith)
