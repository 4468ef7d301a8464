-- ===== src/Merkle/Binding.antt =====
-- A root fixes its leaves, unless texts that are hashed for it collide.
use mathlib.Core.Path.{ap₂}
use sealr_verify.Common.{
  ℕ, zero, suc, ◌≤◌, ◌≡◌, ◌⊎◌, refl, sym, ◌∙◌, List, [], ◌∷◌, ◌++◌, arith, inl, inr, length, take,
  drop, take-append-drop,
}
use sealr_verify.Common.Text.{Bytes}
use sealr_verify.Deps.{Digests}
use sealr_verify.Hash.Collision.{Clash, CollisionIn, Clash-sym, or_map}
use sealr_verify.Merkle.{split_point, subtree_root, merkle_root}
use sealr_verify.Merkle.Split.{split_point-pos, split_point-lt}
use sealr_verify.Merkle.Shape.{left_part, right_part, length-left_part, length-right_part}
use sealr_verify.Merkle.Inputs.{SubtreeHashes, RootHashes, CollisionIn-map}
use sealr_verify.Merkle.Nodes.{
  leaf_input, node_input, leaf-ne-node, leaf_hash_injective, node_hash_injective,
  length-subtree_root, leaf-ne-nil, node-ne-nil,
}

module _ ⦃d : Digests⦄ where
  -- the root of a tree is not the root of none
  root-ne-nil :
      (x : Bytes) (l : List Bytes)
      → merkle_root (x ∷ l) ≡ merkle_root []
      → (a : Bytes) × RootHashes (x ∷ l) a × Clash a []
  unfolding merkle_root subtree_root
  root-ne-nil x [] h = (leaf_input x, refl, leaf-ne-nil x h)
  root-ne-nil x (y ∷ l) h = (
    _,
    inl refl,
    node-ne-nil (subtree_root (suc (length l)) (left_part x y l))
        (subtree_root (suc (length l)) (right_part x y l)) h,
  )

  both_sides :
      (a b u v : List Bytes) (C : Type 0) {p q p' q' : Bytes}
      → ((p ≡ p') × (q ≡ q')) ⊎ C
      → (p ≡ p' → (a ≡ u) ⊎ C)
      → (q ≡ q' → (b ≡ v) ⊎ C)
      → ((a ≡ u) × (b ≡ v)) ⊎ C
  both_sides a b u v C (inr c) f g = inr c
  both_sides a b u v C (inl (p, q)) f g = elim (f p) [
    | inr c ↦ inr c
    | inl e ↦ elim (g q) [ inr c ↦ inr c | inl e' ↦ inl (e, e') ]
  ]

  split_roots :
      (x y : Bytes) (l : List Bytes) (k : ℕ) (m : List Bytes) (C : Type 0)
      → ((left_part x y l ≡ take k m) × (right_part x y l ≡ drop k m)) ⊎ C
      → (x ∷ y ∷ l ≡ m) ⊎ C
  split_roots x y l k m C (inr c) = inr c
  split_roots x y l k m C (inl (p, q)) =
      inl (sym (take-append-drop _ (x ∷ y ∷ l)) ∙ ap₂ (λ u v. u ++ v) p q ∙ take-append-drop k m)

  subtree_root_injective :
      (f g : ℕ) (l m : List Bytes)
      → 1 ≤ length l
      → length l ≤ f
      → 1 ≤ length m
      → length m ≤ g
      → subtree_root f l ≡ subtree_root g m
      → (l ≡ m) ⊎ CollisionIn (SubtreeHashes f l) (SubtreeHashes g m)
  unfolding subtree_root
  subtree_root_injective zero g l m a b a' b' h = absurd (omega arith)
  subtree_root_injective (suc f) zero l m a b a' b' h = absurd (omega arith)
  subtree_root_injective (suc f) (suc g) [] m a b a' b' h = absurd (omega arith)
  subtree_root_injective (suc f) (suc g) (x ∷ l) [] a b a' b' h = absurd (omega arith)
  subtree_root_injective (suc f) (suc g) (x ∷ []) (u ∷ []) a b a' b' h =
      elim (leaf_hash_injective x u h) [
        | inl e ↦ inl (cc)
        | inr c ↦ inr (leaf_input x, leaf_input u, refl, refl, c)
      ]
  subtree_root_injective (suc f) (suc g) (x ∷ []) (u ∷ v ∷ m) a b a' b' h = inr (
    _,
    _,
    refl,
    inl refl,
    leaf-ne-node x (subtree_root g (left_part u v m)) (subtree_root g (right_part u v m)) h,
  )
  subtree_root_injective (suc f) (suc g) (x ∷ y ∷ l) (u ∷ []) a b a' b' h =
      let l_root = subtree_root f (left_part x y l) in
      let r_root = subtree_root f (right_part x y l) in
      inr (
        _,
        _,
        inl refl,
        refl,
        Clash-sym (leaf_input u) (node_input l_root r_root) (leaf-ne-node u l_root r_root (sym h)),
      )
  subtree_root_injective (suc f) (suc g) (x ∷ y ∷ l) (u ∷ v ∷ m) a b a' b' h =
      let n = length l in
      let n' = length m in
      let lp = length-left_part x y l in
      let rp = length-right_part x y l in
      let lp' = length-left_part u v m in
      let rp' = length-right_part u v m in
      let l1 : 1 ≤ length (left_part x y l) = omega (arith, split_point-pos n) in
      let l2 : length (left_part x y l) ≤ f = omega (arith, split_point-lt n) in
      let r1 : 1 ≤ length (right_part x y l) = omega (arith, split_point-lt n) in
      let r2 : length (right_part x y l) ≤ f = omega (arith, split_point-pos n) in
      let l1' : 1 ≤ length (left_part u v m) = omega (arith, split_point-pos n') in
      let l2' : length (left_part u v m) ≤ g = omega (arith, split_point-lt n') in
      let r1' : 1 ≤ length (right_part u v m) = omega (arith, split_point-lt n') in
      let r2' : length (right_part u v m) ≤ g = omega (arith, split_point-pos n') in
      let C : Type 0 =
        CollisionIn (SubtreeHashes (suc f) (x ∷ y ∷ l)) (SubtreeHashes (suc g) (u ∷ v ∷ m)) in
      split_roots x y l (split_point (length (u ∷ v ∷ m))) (u ∷ v ∷ m) C (
        both_sides (left_part x y l) (right_part x y l) (left_part u v m) (right_part u v m) C
          (or_map
            (node_hash_injective (subtree_root f (left_part x y l))
              (subtree_root f (right_part x y l)) (subtree_root g (left_part u v m))
              (subtree_root g (right_part u v m))
              (length-subtree_root f (left_part x y l) l1 l2
                ∙ sym (length-subtree_root g (left_part u v m) l1' l2'))
              h)
            (λ c. (_, _, inl refl, inl refl, c)))
          (λ e.
            or_map (subtree_root_injective f g (left_part x y l) (left_part u v m) l1 l2 l1' l2' e)
              (CollisionIn-map _ _ _ _ (λ b p. inr (inl p)) (λ b q. inr (inl q))))
          (λ e.
            or_map
              (subtree_root_injective f g (right_part x y l) (right_part u v m) r1 r2 r1' r2' e)
              (CollisionIn-map _ _ _ _ (λ b p. inr (inr p)) (λ b q. inr (inr q)))))

  -- Two lists of leaves with one root are one list, in length, order and content, or a text that is
  -- hashed for the first root and a different one that is hashed for the second have one digest.
  pub merkle_root_injective :
      (l m : List Bytes)
      → merkle_root l ≡ merkle_root m
      → (l ≡ m) ⊎ CollisionIn (RootHashes l) (RootHashes m)
  merkle_root_injective [] [] h = inl refl
  merkle_root_injective [] (u ∷ m) h =
      let (a, p, c) = root-ne-nil u m (sym h) in inr ([], a, refl, p, Clash-sym a [] c)
  merkle_root_injective (x ∷ l) [] h = let (a, p, c) = root-ne-nil x l h in inr (a, [], p, refl, c)
  merkle_root_injective (x ∷ l) (u ∷ m) h =
      unfold merkle_root in
      subtree_root_injective (length (x ∷ l)) (length (u ∷ m)) (x ∷ l) (u ∷ m) (omega arith)
        (omega arith) (omega arith) (omega arith) h
