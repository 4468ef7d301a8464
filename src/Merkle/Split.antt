-- ===== src/Merkle/Split.antt =====
-- `split_point` returns the largest power of two below its argument.
use sealr_verify.Common.{
  ℕ, zero, suc, ◌+◌, ◌*◌, ◌^◌, ◌≤◌, ◌<◌, ◌≡◌, refl, arith, ltb, ltb→lt, Bool-cases, inl, inr,
}
use native.Mathlib.Nat.{pow-suc}
use sealr_verify.Merkle.{grow, split_point}

grow_sound :
    (f k n j : ℕ)
    → k ≡ 2 ^ j
    → 1 ≤ k
    → k < n
    → n ≤ f + k
    → (i : ℕ) × (grow f k n ≡ 2 ^ i) × (1 ≤ grow f k n) × (grow f k n < n) × (n ≤ grow f k n * 2)
unfolding grow
grow_sound zero k n j e p h fits = absurd (omega arith)
grow_sound (suc f) k n j e p h fits = elim (Bool-cases (ltb (k * 2) n)) [
  | inl t ↦
      rw (t, grow)
        (grow_sound f (k * 2) n (suc j) (rw (pow-suc, e)) (omega arith) (ltb→lt (k * 2) n t)
          (omega arith))
  | inr t ↦ rw (t, grow) (j, e, p, h, ground arith)
]

-- For two leaves or more the split is a power of two, leaves both sides a leaf, and no larger power
-- of two lies below the number of leaves.
pub split_point_lem :
    (n : ℕ)
    → 2 ≤ n
    → (i : ℕ) × (split_point n ≡ 2 ^ i)
      × (1 ≤ split_point n)
      × (split_point n < n)
      × (n ≤ split_point n * 2)
unfolding split_point
split_point_lem n h = grow_sound n 1 n 0 refl (omega arith) (omega arith) (omega arith)

pub split_point-pos : (n : ℕ) → 1 ≤ split_point (suc (suc n))
split_point-pos n = (split_point_lem (suc (suc n)) (omega arith)).2

pub split_point-lt : (n : ℕ) → split_point (suc (suc n)) < suc (suc n)
split_point-lt n = (split_point_lem (suc (suc n)) (omega arith)).3
