-- ===== src/Merkle/Inclusion.antt =====
-- Every audit path verifies: what `inclusion_proof` returns is accepted by `verify_inclusion`.
use sealr_verify.Common.{
  ℕ, zero, suc, ◌-◌, ◌≤◌, ◌≡◌, refl, ap, ◌∙◌, some, false, List, [], ◌∷◌, ◌++◌, arith, ltb, leb,
  ltb→lt, Bool-cases, inl, inr, length, get_elem?, get_elem?-take, get_elem?-drop, lt_of_get_elem?,
}
use sealr_verify.Common.Text.{Bytes, str_eq_refl}
use sealr_verify.Common.Result.{ok}
use sealr_verify.Deps.{Digests}
use sealr_verify.Merkle.{
  ProofStep, split_point, leaf_hash, subtree_root, merkle_root, path, inclusion_proof, step_up,
  climb, verify_inclusion,
}
use sealr_verify.Merkle.Split.{split_point-pos, split_point-lt}
use sealr_verify.Merkle.Shape.{
  left_part, right_part, length-left_part, length-right_part, subtree_root-merkle_root,
}

module _ ⦃d : Digests⦄ where
  pub climb-append :
      (h : Bytes) (p : List ProofStep) (s : ProofStep)
      → climb h (p ++ s ∷ []) ≡ step_up (climb h p) s
  unfolding climb
  climb-append h [] s = refl
  climb-append h (t ∷ p) s = climb-append (step_up h t) p s

  climb-nil : (h : Bytes) → climb h [] ≡ h
  unfolding climb
  climb-nil h = refl

  climb-path :
      (f : ℕ) (l : List Bytes) (i : ℕ) {x : Bytes}
      → length l ≤ f
      → get_elem? l i ≡ some x
      → climb (leaf_hash x) (path f l i) ≡ subtree_root f l
  unfolding path subtree_root step_up
  climb-path zero [] i p h = absurd (cc)
  climb-path zero (y ∷ l) i p h = absurd (omega arith)
  climb-path (suc f) [] i p h = absurd (cc)
  climb-path (suc f) (y ∷ []) zero p h = climb-nil _ ∙ ap leaf_hash (cc)
  climb-path (suc f) (y ∷ []) (suc i) p h = absurd (cc)
  climb-path (suc f) (y ∷ z ∷ l) i {x} p h =
      let n = length l in
      let k = split_point (length (y ∷ z ∷ l)) in
      elim (Bool-cases (ltb i k)) [
        | inl t ↦
            let ih =
              climb-path f (left_part y z l) i
                (omega (arith, length-left_part y z l, split_point-lt n))
                (get_elem?-take k i (y ∷ z ∷ l) (ltb→lt i k t) ∙ h) in
            rw (t, climb-append, ih)
        | inr t ↦
            let ih =
              climb-path f (right_part y z l) (i - k)
                (omega (arith, length-right_part y z l, split_point-pos n))
                (get_elem?-drop k i (y ∷ z ∷ l) (ground arith) ∙ h) in
            rw (t, climb-append, ih)
      ]

  -- For every tree and every leaf of it, `inclusion_proof` returns a proof, and `verify_inclusion`
  -- accepts it for that leaf, its index, the number of leaves and the root of the tree.
  pub verify_inclusion-inclusion_proof :
      (leaves : List Bytes) (index : ℕ) (leaf : Bytes)
      → get_elem? leaves index ≡ some leaf
      → (proof : List ProofStep) × (inclusion_proof leaves index ≡ ok proof)
        × (verify_inclusion leaf index (length leaves) proof (merkle_root leaves) ≡ ok tt)
  verify_inclusion-inclusion_proof leaves index leaf h =
      let lt = lt_of_get_elem? leaves index h in
      let t : leb (length leaves) index ≡ false = ground arith in
      let e =
        climb-path (length leaves) leaves index (omega arith) h
        ∙ subtree_root-merkle_root (length leaves) leaves (omega arith) (omega arith) in
      (
        path (length leaves) leaves index,
        unfold inclusion_proof in rw t,
        unfold verify_inclusion in rw (t, e, str_eq_refl),
      )
