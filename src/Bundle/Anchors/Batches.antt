-- ===== src/Bundle/Anchors/Batches.antt =====
-- Every proof of a batch that `build_batch` makes verifies against the root of the batch, and a
-- proof that verifies is about a digest of the batch.
use sealr_verify.Common.{
  All-get_elem?, get_elem?-map, ◌∙◌, ◌+◌, ℕ, zero, suc, ◌≤◌, ◌≡◌, refl, ap, ◌⊎◌, Bool, some, List,
  [], ◌∷◌, map, length, All, All-append, get_elem?, arith, ltb, leb, Bool-cases, inl, inr,
}
use sealr_verify.Common.Text.{Bytes, Str, IsByte}
use sealr_verify.Common.Result.{ok, >>=-eq-ok, collect}
use sealr_verify.Deps.{Digests}
use sealr_verify.Hash.{hex_encode, hex_decode_digest}
use sealr_verify.Hash.RoundTrip.{hex_decode_digest-hex_encode, length-hex_decode_digest}
use sealr_verify.Hash.Collision.{CollisionIn}
use sealr_verify.Merkle.Inputs.{RootHashes}
use sealr_verify.Merkle.{ProofStep, split_point, subtree_root, merkle_root, path, inclusion_proof}
use sealr_verify.Merkle.Split.{split_point-pos, split_point-lt}
use sealr_verify.Merkle.Shape.{left_part, right_part, length-left_part, length-right_part}
use sealr_verify.Merkle.Nodes.{length-subtree_root}
use sealr_verify.Merkle.Width.{subtree_root-IsByte, merkle_root-IsByte, length-merkle_root}
use sealr_verify.Merkle.Inclusion.{verify_inclusion-inclusion_proof}
use sealr_verify.Merkle.Soundness.{IsSized, ProofHashes, verify_inclusion_sound}
use sealr_verify.Bundle.Anchors.{
  StoredProofStep, CheckpointInclusion, AnchorBatch, to_step, from_step, inclusion_at,
  inclusions_from, build_batch, verify_inclusion,
}

abbrev pub IsDigest : Bytes → Type 0
IsDigest b = All IsByte b × (length b ≡ 32)

pub to_step-from_step : (s : ProofStep) → IsDigest s.sibling → to_step (from_step s) ≡ ok s
unfolding to_step from_step
to_step-from_step s h = rw (hex_decode_digest-hex_encode s.sibling h.0 h.1)

pub collect-from_step :
    (p : List ProofStep)
    → All (λ s. IsDigest s.sibling) p
    → collect to_step (map from_step p) ≡ ok p
collect-from_step [] h = refl
collect-from_step (s ∷ p) h = rw (to_step-from_step s h.0, collect-from_step p h.1)

module _ ⦃d : Digests⦄ where
  subtree_root-IsDigest :
      (f : ℕ) (l : List Bytes) → 1 ≤ length l → length l ≤ f → IsDigest (subtree_root f l)
  subtree_root-IsDigest f l p q = (subtree_root-IsByte f l, length-subtree_root f l p q)

  path-IsDigest :
      (f : ℕ) (l : List Bytes) (i : ℕ) → length l ≤ f → All (λ s. IsDigest s.sibling) (path f l i)
  unfolding path
  path-IsDigest zero l i h = tt
  path-IsDigest (suc f) [] i h = tt
  path-IsDigest (suc f) (x ∷ []) i h = tt
  path-IsDigest (suc f) (x ∷ y ∷ l) i h =
      let n = length l in
      let lp = length-left_part x y l in
      let rp = length-right_part x y l in
      let l1 : 1 ≤ length (left_part x y l) = omega (arith, split_point-pos n) in
      let l2 : length (left_part x y l) ≤ f = omega (arith, split_point-lt n) in
      let r1 : 1 ≤ length (right_part x y l) = omega (arith, split_point-lt n) in
      let r2 : length (right_part x y l) ≤ f = omega (arith, split_point-pos n) in
      elim (Bool-cases (ltb i (split_point (length (x ∷ y ∷ l))))) [
        | inl t ↦ rw t (
            All-append (λ s. IsDigest s.sibling) (path f (left_part x y l) i) _
              (path-IsDigest f (left_part x y l) i l2)
              (subtree_root-IsDigest f (right_part x y l) r1 r2, tt))
        | inr t ↦ rw t (
            All-append (λ s. IsDigest s.sibling) (path f (right_part x y l) _) _
              (path-IsDigest f (right_part x y l) _ r2)
              (subtree_root-IsDigest f (left_part x y l) l1 l2, tt))
      ]

  inclusion_proof-IsDigest :
      (l : List Bytes) (i : ℕ) (p : List ProofStep)
      → inclusion_proof l i ≡ ok p
      → All (λ s. IsDigest s.sibling) p
  unfolding inclusion_proof
  inclusion_proof-IsDigest l i p h = elim (Bool-cases (leb (length l) i)) [
    | inl t ↦ absurd (cc (rw t at h))
    | inr t ↦
        let same : path (length l) l i ≡ p = cc (rw t at h) in
        rw (← same) (path-IsDigest (length l) l i (omega arith))
  ]

  -- a run of the loop over a first entry and the rest
  inclusions_from-cons :
      (leaves : List Bytes) (start : ℕ) (entry : Str × Bytes) (rest : List (Str × Bytes))
      (out : List CheckpointInclusion)
      → inclusions_from leaves start (entry ∷ rest) ≡ ok out
      → (one : CheckpointInclusion) × (others : List CheckpointInclusion) × (inclusion_at leaves
            start entry
          ≡ ok one)
        × (inclusions_from leaves (start + 1) rest ≡ ok others)
        × (out ≡ one ∷ others)
  unfolding inclusions_from
  inclusions_from-cons leaves start entry rest out h =
      let (one, first, h2) = >>=-eq-ok (inclusion_at leaves start entry) _ h in
      let (others, tail, h3) = >>=-eq-ok (inclusions_from leaves (start + 1) rest) _ h2 in
      (one, others, first, tail, cc)

  -- the entry that an inclusion of the loop was made for
  inclusions_from-get_elem? :
      (leaves : List Bytes) (start : ℕ) (entries : List (Str × Bytes))
      (out : List CheckpointInclusion) (i : ℕ) (x : CheckpointInclusion)
      → inclusions_from leaves start entries ≡ ok out
      → get_elem? out i ≡ some x
      → (entry : Str × Bytes) × (get_elem? entries i ≡ some entry)
        × (inclusion_at leaves (start + i) entry ≡ ok x)
  inclusions_from-get_elem? leaves start [] out i x h found =
      let same : [] ≡ out = unfold inclusions_from in cc in absurd (cc (rw (← same) at found))
  inclusions_from-get_elem? leaves start (entry ∷ rest) out zero x h found =
      let (one, others, first, tail, out_is) = inclusions_from-cons leaves start entry rest out h in
      let same : one ≡ x = cc (rw out_is at found) in
      let here : start + 0 ≡ start = omega arith in (entry, refl, rw here (first ∙ ap ok same))
  inclusions_from-get_elem? leaves start (entry ∷ rest) out (suc i) x h found =
      let (one, others, first, tail, out_is) = inclusions_from-cons leaves start entry rest out h in
      let (e, at, made) =
        inclusions_from-get_elem? leaves (start + 1) rest others i x tail (rw out_is at found) in
      let here : start + 1 + i ≡ start + suc i = omega arith in (e, at, rw (← here) made)

  inclusion_at-verifies :
      (leaves : List Bytes) (i : ℕ) (entry : Str × Bytes) (x : CheckpointInclusion)
      → get_elem? leaves i ≡ some entry.1
      → IsDigest entry.1
      → inclusion_at leaves i entry ≡ ok x
      → verify_inclusion x (hex_encode (merkle_root leaves)) ≡ ok tt
  unfolding inclusion_at verify_inclusion
  inclusion_at-verifies leaves i entry x at h made =
      let (p, proves, accepted) = verify_inclusion-inclusion_proof leaves i entry.1 at in
      let (q, proves2, e) = >>=-eq-ok (inclusion_proof leaves i) _ made in
      let paths : q ≡ p = cc in
      let same : record {
        checkpoint_id = entry.0;
        leaf = hex_encode entry.1;
        leaf_index = i;
        tree_size = length leaves;
        proof = map from_step q;
      }
          ≡ x =
        cc in
      rw
        (
          ← same,
          hex_decode_digest-hex_encode entry.1 h.0 h.1,
          hex_decode_digest-hex_encode (merkle_root leaves) (merkle_root-IsByte leaves)
              (length-merkle_root leaves),
          collect-from_step q (inclusion_proof-IsDigest leaves i q proves2),
          paths,
        )
        accepted

  -- Every inclusion in a batch that `build_batch` makes over digests verifies against the root of
  -- the batch.
  pub verify_inclusion-build_batch :
      (id created_at : Str) (entries : List (Str × Bytes)) (qualified : Bool) (batch : AnchorBatch)
      (i : ℕ) (x : CheckpointInclusion)
      → All (λ entry. IsDigest entry.1) entries
      → build_batch id created_at entries qualified ≡ ok batch
      → get_elem? batch.checkpoints i ≡ some x
      → verify_inclusion x batch.root_blake3 ≡ ok tt
  unfolding build_batch
  verify_inclusion-build_batch id created_at entries qualified batch i x h made found =
      let leaves = map (λ (x : Str × Bytes). x.1) entries in
      let (out, all, e) = >>=-eq-ok (inclusions_from leaves 0 entries) _ made in
      let outs : out ≡ batch.checkpoints = cc in
      let roots : hex_encode (merkle_root leaves) ≡ batch.root_blake3 = cc in
      let (entry, at, one) =
        inclusions_from-get_elem? leaves 0 entries out i x all (rw outs found) in
      let start : 0 + i ≡ i = omega arith in
      rw (← roots) (
        inclusion_at-verifies leaves i entry x (get_elem?-map (λ x. x.1) entries i at)
          (All-get_elem? (λ x. IsDigest x.1) entries i h at) (rw start at one))

  collect-to_step-IsSized :
      (stored : List StoredProofStep) (proof : List ProofStep)
      → collect to_step stored ≡ ok proof
      → All IsSized proof
  unfolding to_step
  collect-to_step-IsSized [] proof h = let same : [] ≡ proof = cc in rw (← same) tt
  collect-to_step-IsSized (s ∷ stored) proof h =
      let (step, one, h2) = >>=-eq-ok (to_step s) _ h in
      let (steps, others, h3) = >>=-eq-ok (collect to_step stored) _ h2 in
      let (sibling, read, h4) = >>=-eq-ok (hex_decode_digest s.sibling) _ one in
      let same : step ∷ steps ≡ proof = cc in
      let is : record { sibling = sibling; sibling_on_left = s.left } ≡ step = cc in
      rw (← same, ← is)
        (
          length-hex_decode_digest s.sibling sibling read,
          collect-to_step-IsSized stored steps others,
        )

  -- An inclusion that verifies against the root of a tree is about one of the leaves of the tree,
  -- unless a text that is hashed along its proof and a different one that is hashed in the tree
  -- have the same digest.
  pub inclusion_sound :
      (leaves : List Bytes) (x : CheckpointInclusion)
      → verify_inclusion x (hex_encode (merkle_root leaves)) ≡ ok tt
      → ((leaf : Bytes) × (hex_decode_digest x.leaf ≡ ok leaf)
          × ((i : ℕ) × (get_elem? leaves i ≡ some leaf)))
        ⊎ ((leaf : Bytes) × (proof : List ProofStep) × (hex_decode_digest x.leaf ≡ ok leaf)
            × (collect to_step x.proof ≡ ok proof)
            × CollisionIn (ProofHashes leaf proof) (RootHashes leaves))
  unfolding verify_inclusion
  inclusion_sound leaves x h =
      let (leaf, read, h2) = >>=-eq-ok (hex_decode_digest x.leaf) _ h in
      let (root, is_root, h3) =
        >>=-eq-ok (hex_decode_digest (hex_encode (merkle_root leaves))) _ h2 in
      let (proof, steps, h4) = >>=-eq-ok (collect to_step x.proof) _ h3 in
      let same : root ≡ merkle_root leaves = cc (
        hex_decode_digest-hex_encode (merkle_root leaves) (merkle_root-IsByte leaves)
          (length-merkle_root leaves)) in
      elim (verify_inclusion_sound leaves leaf x.leaf_index x.tree_size proof
        (collect-to_step-IsSized x.proof proof steps) (rw same at h4)) [
          | inl found ↦ inl (leaf, read, found)
          | inr broken ↦ inr (leaf, proof, read, steps, broken)
        ]
