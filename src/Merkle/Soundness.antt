-- ===== src/Merkle/Soundness.antt =====
-- What an accepted proof proves, unless two of the texts that are hashed have one digest.
use mathlib.Core.List.{reverse, reverse-cons, reverse-reverse}
use sealr_verify.Common.{
  ℕ, zero, suc, ◌≤◌, ◌≡◌, ◌⊎◌, refl, sym, ap, ◌∙◌, some, List, [], ◌∷◌, arith, leb, Bool-cases, inl,
  inr, length, take, drop, get_elem?, All, get_elem?_of_take, get_elem?_of_drop, All-append,
  if◌then◌else◌,
}
use sealr_verify.Common.Text.{Bytes, str_eq, str_eq→eq}
use sealr_verify.Common.Result.{ok}
use sealr_verify.Deps.{Digests}
use sealr_verify.Hash.Collision.{Clash, CollisionIn, Clash-sym, or_map}
use sealr_verify.Merkle.{
  ProofStep, split_point, leaf_hash, node_hash, subtree_root, merkle_root, step_up, climb,
  verify_inclusion,
}
use sealr_verify.Merkle.Split.{split_point-pos, split_point-lt}
use sealr_verify.Merkle.Shape.{
  left_part, right_part, length-left_part, length-right_part, subtree_root-merkle_root,
}
use sealr_verify.Merkle.Inclusion.{climb-append}
use sealr_verify.Merkle.Inputs.{SubtreeHashes, RootHashes, CollisionIn-map}
use sealr_verify.Merkle.Nodes.{
  leaf_input, node_input, leaf-ne-node, leaf_hash_injective, node_hash_injective, length-leaf_hash,
  length-node_hash, length-subtree_root, leaf-ne-nil, node-ne-nil,
}

-- a sibling is a `[u8; 32]`
abbrev pub IsSized : ProofStep → Type 0
IsSized s = length s.sibling ≡ 32

module _ ⦃d : Digests⦄ where
  -- `climb` from the outermost step inwards
  pub climb_rev : Bytes → List ProofStep → Bytes
  climb_rev h [] = h
  climb_rev h (s ∷ p) = step_up (climb_rev h p) s

  climb_rev-reverse : (h : Bytes) (p : List ProofStep) → climb_rev h p ≡ climb h (reverse p)
  unfolding climb_rev
  climb_rev-reverse h [] = unfold climb in refl
  climb_rev-reverse h (s ∷ p) =
      ap (λ b. step_up b s) (climb_rev-reverse h p)
      ∙ sym (climb-append h (reverse p) s)
      ∙ ap (climb h) (sym (reverse-cons s p))

  length-climb_rev : (x : Bytes) (p : List ProofStep) → length (climb_rev (leaf_hash x) p) ≡ 32
  unfolding climb_rev step_up
  length-climb_rev x [] = length-leaf_hash x
  length-climb_rev x (s ∷ p) = elim (Bool-cases s.sibling_on_left) [
    | inl e ↦ rw e (length-node_hash _ _)
    | inr e ↦ rw e (length-node_hash _ _)
  ]

  -- the two texts that a step hashes together
  pub step_input : Bytes → ProofStep → Bytes
  step_input hash s =
      if s.sibling_on_left then node_input s.sibling hash else node_input hash s.sibling

  -- the texts that the check of a proof hashes; the steps are given from the outermost
  abbrev pub ClimbHashes : Bytes → List ProofStep → Bytes → Type 0
  ClimbHashes x [] b = b ≡ leaf_input x
  ClimbHashes x (s ∷ p) b = (b ≡ step_input (climb_rev (leaf_hash x) p) s) ⊎ ClimbHashes x p b

  abbrev pub Among : Bytes → List Bytes → Type 0
  Among x l = (i : ℕ) × (get_elem? l i ≡ some x)

  Found-take :
      (n : ℕ) (l : List Bytes) (C : Type 0) {x : Bytes} → Among x (take n l) ⊎ C → Among x l ⊎ C
  Found-take n l C (inl (i, e)) = inl (i, get_elem?_of_take n i l e)
  Found-take n l C (inr c) = inr c

  Found-drop :
      (n : ℕ) (l : List Bytes) (C : Type 0) {x : Bytes} → Among x (drop n l) ⊎ C → Among x l ⊎ C
  Found-drop n l C (inl (i, e)) = inl (get_elem?_of_drop n i l e)
  Found-drop n l C (inr c) = inr c

  -- the last step of a climb is a node over its two children
  record IsNode (hash : Bytes) (s : ProofStep) : Type 0 where
    left : Bytes
    right : Bytes
    is_node : step_up hash s ≡ node_hash left right
    is_input : step_input hash s ≡ node_input left right
    side : ((left ≡ hash) × (right ≡ s.sibling)) ⊎ ((left ≡ s.sibling) × (right ≡ hash))

  step_up-IsNode : (hash : Bytes) (s : ProofStep) → IsNode hash s
  unfolding step_up step_input
  step_up-IsNode hash s = elim (Bool-cases s.sibling_on_left) [
    | inl e ↦ record {
      left = s.sibling;
      right = hash;
      is_node = rw e;
      is_input = rw e;
      side = inr (refl, refl);
    }
    | inr e ↦ record {
      left = hash;
      right = s.sibling;
      is_node = rw e;
      is_input = rw e;
      side = inl (refl, refl);
    }
  ]

  climb_rev_sound :
      (f : ℕ) (l : List Bytes) (x : Bytes) (p : List ProofStep)
      → 1 ≤ length l
      → length l ≤ f
      → All IsSized p
      → climb_rev (leaf_hash x) p ≡ subtree_root f l
      → Among x l ⊎ CollisionIn (ClimbHashes x p) (SubtreeHashes f l)
  unfolding climb_rev subtree_root
  climb_rev_sound zero l x p a b s h = absurd (omega arith)
  climb_rev_sound (suc f) [] x p a b s h = absurd (omega arith)
  climb_rev_sound (suc f) (y ∷ []) x [] a b s h = elim (leaf_hash_injective x y h) [
    | inl e ↦ inl (0, cc)
    | inr c ↦ inr (_, _, refl, refl, c)
  ]
  climb_rev_sound (suc f) (y ∷ []) x (t ∷ p) a b s h =
      let n = step_up-IsNode (climb_rev (leaf_hash x) p) t in
      inr (
        _,
        _,
        inl (sym n.is_input),
        refl,
        Clash-sym _ _ (leaf-ne-node y n.left n.right (sym h ∙ n.is_node)),
      )
  climb_rev_sound (suc f) (y ∷ z ∷ l) x [] a b s h = inr (
    _,
    _,
    refl,
    inl refl,
    leaf-ne-node x (subtree_root f (left_part y z l)) (subtree_root f (right_part y z l)) h,
  )
  climb_rev_sound (suc f) (y ∷ z ∷ l) x (t ∷ p) a b (st, s) h =
      let C : Type 0 = CollisionIn (ClimbHashes x (t ∷ p)) (SubtreeHashes (suc f) (y ∷ z ∷ l)) in
      let len = length l in
      let k = split_point (length (y ∷ z ∷ l)) in
      let left = left_part y z l in
      let right = right_part y z l in
      let n = step_up-IsNode (climb_rev (leaf_hash x) p) t in
      let lp = length-left_part y z l in
      let rp = length-right_part y z l in
      let l1 : 1 ≤ length left = omega (arith, split_point-pos len) in
      let l2 : length left ≤ f = omega (arith, split_point-lt len) in
      let r1 : 1 ≤ length right = omega (arith, split_point-lt len) in
      let r2 : length right ≤ f = omega (arith, split_point-pos len) in
      let e : node_hash n.left n.right ≡ node_hash (subtree_root f left) (subtree_root f right) =
        sym n.is_node ∙ h in
      let size : length n.left ≡ 32 = elim n.side [
        | inl (p1, q1) ↦ ap length p1 ∙ length-climb_rev x p
        | inr (p1, q1) ↦ ap length p1 ∙ st
      ] in
      elim (node_hash_injective n.left n.right (subtree_root f left) (subtree_root f right)
        (size ∙ sym (length-subtree_root f left l1 l2)) e) [
          | inr c ↦ inr (_, _, inl (sym n.is_input), inl refl, c)
          | inl (el, er) ↦ elim n.side [
            | inl (p1, q1) ↦ Found-take k (y ∷ z ∷ l) C (
                or_map (climb_rev_sound f left x p l1 l2 s (sym p1 ∙ el))
                  (CollisionIn-map _ _ _ _ (λ b p. inr p) (λ b q. inr (inl q))))
            | inr (p1, q1) ↦ Found-drop k (y ∷ z ∷ l) C (
                or_map (climb_rev_sound f right x p r1 r2 s (sym q1 ∙ er))
                  (CollisionIn-map _ _ _ _ (λ b p. inr p) (λ b q. inr (inr q))))
          ]
        ]

  -- the root of no leaves is the digest of no bytes, and every other hash has a prefix
  climb_rev-ne-nil :
      (x : Bytes) (p : List ProofStep)
      → climb_rev (leaf_hash x) p ≡ d.blake3 []
      → (a : Bytes) × ClimbHashes x p a × Clash a []
  unfolding climb_rev
  climb_rev-ne-nil x [] h = (_, refl, leaf-ne-nil x h)
  climb_rev-ne-nil x (s ∷ p) h =
      let n = step_up-IsNode (climb_rev (leaf_hash x) p) s in
      (_, inl (sym n.is_input), node-ne-nil n.left n.right (sym n.is_node ∙ h))

  climb-ne-nil :
      (x : Bytes) (p : List ProofStep)
      → climb (leaf_hash x) p ≡ merkle_root []
      → (a : Bytes) × ClimbHashes x (reverse p) a × Clash a []
  climb-ne-nil x p h = climb_rev-ne-nil x (reverse p) (
      climb_rev-reverse (leaf_hash x) (reverse p)
      ∙ ap (climb (leaf_hash x)) (reverse-reverse p)
      ∙ h
      ∙ unfold merkle_root in refl)

  All-reverse : (p : List ProofStep) → All IsSized p → All IsSized (reverse p)
  All-reverse [] h = tt
  All-reverse (s ∷ p) (hs, h) =
      rw (reverse-cons s p) (All-append IsSized (reverse p) (s ∷ []) (All-reverse p h) (hs, tt))

  -- the texts that `verify_inclusion` hashes for a leaf and a proof
  abbrev pub ProofHashes : Bytes → List ProofStep → Bytes → Type 0
  ProofHashes x p = ClimbHashes x (reverse p)

  -- the same from the innermost step, and for every list of leaves
  climb_sound :
      (leaves : List Bytes) (x : Bytes) (p : List ProofStep)
      → All IsSized p
      → climb (leaf_hash x) p ≡ merkle_root leaves
      → Among x leaves ⊎ CollisionIn (ProofHashes x p) (RootHashes leaves)
  climb_sound [] x p s h = let (a, at, c) = climb-ne-nil x p h in inr (a, [], at, refl, c)
  climb_sound (y ∷ l) x p s h =
      let e : climb_rev (leaf_hash x) (reverse p) ≡ climb (leaf_hash x) p =
        climb_rev-reverse (leaf_hash x) (reverse p)
        ∙ ap (climb (leaf_hash x)) (reverse-reverse p) in
      climb_rev_sound (length (y ∷ l)) (y ∷ l) x (reverse p) (omega arith) (omega arith)
        (All-reverse p s)
        (e
          ∙ h
          ∙ sym (subtree_root-merkle_root (length (y ∷ l)) (y ∷ l) (omega arith) (omega arith)))

  -- If `verify_inclusion` accepts a leaf against the root of a tree, whatever index, size and proof
  -- it is given, the leaf is one of the leaves of the tree, or a text that is hashed in the check and
  -- a different one that is hashed for the root have one digest.
  pub verify_inclusion_sound :
      (leaves : List Bytes) (leaf : Bytes) (index tree_size : ℕ) (proof : List ProofStep)
      → All IsSized proof
      → verify_inclusion leaf index tree_size proof (merkle_root leaves) ≡ ok tt
      → ((i : ℕ) × (get_elem? leaves i ≡ some leaf))
        ⊎ CollisionIn (ProofHashes leaf proof) (RootHashes leaves)
  unfolding verify_inclusion
  verify_inclusion_sound leaves leaf index tree_size proof s h =
      elim (Bool-cases (leb tree_size index)) [
        | inl out ↦ absurd (cc (rw out at h))
        | inr within ↦
            elim (Bool-cases (str_eq (climb (leaf_hash leaf) proof) (merkle_root leaves))) [
              | inl e ↦ climb_sound leaves leaf proof s (str_eq→eq _ _ e)
              | inr e ↦ absurd (cc (rw (within, e) at h))
            ]
      ]
