-- ===== src/Merkle/Shape.antt =====
-- The fuel of the tree functions does not matter, and what the tree is without it.
use sealr_verify.Common.{
  ℕ, zero, suc, ◌-◌, ◌≤◌, ◌≡◌, refl, sym, ◌∙◌, List, [], ◌∷◌, arith, length, take, drop,
  length-take, length-drop,
}
use sealr_verify.Common.Text.{Bytes}
use sealr_verify.Deps.{Digests}
use sealr_verify.Merkle.{split_point, leaf_hash, node_hash, subtree_root, merkle_root}
use sealr_verify.Merkle.Split.{split_point-pos, split_point-lt}

module _ (x y : Bytes) (rest : List Bytes) where
  -- the two halves of a tree of two leaves or more
  abbrev pub left_part : List Bytes
  left_part = take (split_point (length (x ∷ y ∷ rest))) (x ∷ y ∷ rest)

  abbrev pub right_part : List Bytes
  right_part = drop (split_point (length (x ∷ y ∷ rest))) (x ∷ y ∷ rest)

  pub length-left_part : length left_part ≡ split_point (length (x ∷ y ∷ rest))
  length-left_part = length-take _ (x ∷ y ∷ rest) (omega (arith, split_point-lt (length rest)))

  pub length-right_part :
      length right_part ≡ length (x ∷ y ∷ rest) - split_point (length (x ∷ y ∷ rest))
  length-right_part = length-drop _ (x ∷ y ∷ rest)

module _ ⦃d : Digests⦄ where
  pub subtree_root_fuel :
      (f g : ℕ) (l : List Bytes) → length l ≤ f → length l ≤ g → subtree_root f l ≡ subtree_root g l
  unfolding subtree_root
  subtree_root_fuel zero zero l p q = refl
  subtree_root_fuel zero (suc g) [] p q = refl
  subtree_root_fuel zero (suc g) (x ∷ l) p q = absurd (omega arith)
  subtree_root_fuel (suc f) zero [] p q = refl
  subtree_root_fuel (suc f) zero (x ∷ l) p q = absurd (omega arith)
  subtree_root_fuel (suc f) (suc g) [] p q = refl
  subtree_root_fuel (suc f) (suc g) (x ∷ []) p q = refl
  subtree_root_fuel (suc f) (suc g) (x ∷ y ∷ l) p q =
      let n = length l in
      let lp = length-left_part x y l in
      let rp = length-right_part x y l in
      cc (
        subtree_root_fuel f g (left_part x y l) (omega (arith, split_point-lt n))
            (omega (arith, split_point-lt n)),
        subtree_root_fuel f g (right_part x y l) (omega (arith, split_point-pos n))
            (omega (arith, split_point-pos n)),
      )

  pub subtree_root-merkle_root :
      (f : ℕ) (l : List Bytes) → 1 ≤ length l → length l ≤ f → subtree_root f l ≡ merkle_root l
  unfolding merkle_root
  subtree_root-merkle_root f [] p h = absurd (omega arith)
  subtree_root-merkle_root f (x ∷ l) p h = subtree_root_fuel f _ (x ∷ l) h (omega arith)

  node_step :
      (x y : Bytes) (rest : List Bytes)
      → merkle_root (x ∷ y ∷ rest)
        ≡ node_hash (merkle_root (left_part x y rest)) (merkle_root (right_part x y rest))
  node_step x y rest =
      let n = length rest in
      let lp = length-left_part x y rest in
      let rp = length-right_part x y rest in
      let whole =
        subtree_root-merkle_root (suc (suc n)) (x ∷ y ∷ rest) (omega arith) (omega arith) in
      let left =
        subtree_root-merkle_root (suc n) (left_part x y rest) (omega (arith, split_point-pos n))
          (omega (arith, split_point-lt n)) in
      let right =
        subtree_root-merkle_root (suc n) (right_part x y rest) (omega (arith, split_point-lt n))
          (omega (arith, split_point-pos n)) in
      sym whole ∙ unfold subtree_root in (λ i. node_hash (left i) (right i))

  -- the root without fuel
  pub merkle_root_step :
      (x y : Bytes) (rest : List Bytes)
      → (merkle_root (x ∷ []) ≡ leaf_hash x)
        × (merkle_root (x ∷ y ∷ rest)
            ≡ node_hash (merkle_root (left_part x y rest)) (merkle_root (right_part x y rest)))
  merkle_root_step x y rest = (unfold merkle_root subtree_root in refl, node_step x y rest)
