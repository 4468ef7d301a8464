-- ===== src/Hash/Collision.antt =====
-- Different texts with one digest of BLAKE3, among the texts that two sides hash.
use sealr_verify.Common.{sym, ◌≡◌, ◌≢◌, ◌⊎◌, inl, inr, Bool-cases}
use sealr_verify.Common.Text.{Bytes, str_eq, str_eq→eq, str_eq_refl}
use sealr_verify.Deps.{Digests}

pub eq_or_ne : (a b : Bytes) → (a ≡ b) ⊎ (a ≢ b)
eq_or_ne a b = elim (Bool-cases (str_eq a b)) [
  | inl e ↦ inl (str_eq→eq a b e)
  | inr e ↦ inr (λ p. cc (e, rw p at e, str_eq_refl a, str_eq_refl b))
]

pub or_map {ℓ κ λ'} : {A : Type ℓ} {B : Type κ} {C : Type λ'} → A ⊎ B → (B → C) → A ⊎ C
or_map (inl a) f = inl a
or_map (inr b) f = inr (f b)

module _ ⦃d : Digests⦄ where
  -- two different texts with one digest
  abbrev pub Clash : Bytes → Bytes → Type 0
  Clash a b = (a ≢ b) × (d.blake3 a ≡ d.blake3 b)

  -- a clash between a text of the first kind and one of the second
  abbrev pub CollisionIn : (Bytes → Type 0) → (Bytes → Type 0) → Type 0
  CollisionIn P Q = (a : Bytes) × (b : Bytes) × P a × Q b × Clash a b

  pub blake3_injective : (a b : Bytes) → d.blake3 a ≡ d.blake3 b → (a ≡ b) ⊎ Clash a b
  blake3_injective a b h = elim (eq_or_ne a b) [ inl e ↦ inl e | inr n ↦ inr (n, h) ]

  pub Clash-sym : (a b : Bytes) → Clash a b → Clash b a
  Clash-sym a b (n, h) = ((λ e. n (sym e)), sym h)
