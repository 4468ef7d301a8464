-- ===== src/Commitment/Binding.antt =====
-- What a commitment binds, and that an honest one is accepted.
use sealr_verify.Common.{
  ◌≢◌, append_injective, ◌≡◌, ◌∙◌, sym, ◌⊎◌, inl, inr, Bool, true, ◌&&◌, length, All, ==_iff, arith,
  ◌++◌,
}
use sealr_verify.Common.Text.{Bytes, IsByte, str_eq, str_eq_refl, str_eq→eq}
use sealr_verify.Common.Result.{ok}
use sealr_verify.Deps.{Digests}
use sealr_verify.Hash.{try_into, blake3_hex}
use sealr_verify.Hash.RoundTrip.{hex_decode-hex_encode, hex_encode_injective}
use sealr_verify.Hash.Collision.{eq_or_ne}
use sealr_verify.Record.Types.{PayloadCommitment}
use sealr_verify.Commitment.{
  Salt, commitment_alg, salt_to_hex, salt_from_hex, commit, verify_commitment,
}

-- A salt of 32 bytes written as hex is read back.
pub salt_from_hex-salt_to_hex :
    (salt : Salt) → All IsByte salt → length salt ≡ 32 → salt_from_hex (salt_to_hex salt) ≡ ok salt
unfolding salt_from_hex salt_to_hex try_into
salt_from_hex-salt_to_hex salt h l =
    rw (hex_decode-hex_encode salt h, (==_iff (length salt) 32).1 l)

both_true : (a b : Bool) → (a && b) ≡ true → (a ≡ true) × (b ≡ true)
both_true a b h = ground arith

module _ ⦃d : Digests⦄ where
  -- A payload and the salt that it was committed with are accepted.
  pub verify_commitment-commit :
      (payload : Bytes) (salt : Salt) → verify_commitment payload salt (commit payload salt) ≡ true
  unfolding verify_commitment commit
  verify_commitment-commit payload salt =
      rw (str_eq_refl (blake3_hex (salt ++ payload)), str_eq_refl commitment_alg)

  -- A commitment opens in one way only: two accepted payloads with salts of one length are the same
  -- payload and the same salt, or the two inputs that were hashed, salt before payload, differ and
  -- have one digest.
  pub verify_commitment_binding :
      (p q : Bytes) (s t : Salt) (c : PayloadCommitment)
      → length s ≡ length t
      → verify_commitment p s c ≡ true
      → verify_commitment q t c ≡ true
      → ((p ≡ q) × (s ≡ t)) ⊎ ((s ++ p ≢ t ++ q) × (d.blake3 (s ++ p) ≡ d.blake3 (t ++ q)))
  unfolding verify_commitment commit blake3_hex
  verify_commitment_binding p q s t c l hp hq =
      let a = str_eq→eq _ _ (both_true (str_eq c.alg commitment_alg) _ hp).1 in
      let b = str_eq→eq _ _ (both_true (str_eq c.alg commitment_alg) _ hq).1 in
      let same =
        hex_encode_injective (d.blake3 (s ++ p)) (d.blake3 (t ++ q)) (d.blake3-IsByte (s ++ p))
          (d.blake3-IsByte (t ++ q)) (a ∙ sym b) in
      elim (eq_or_ne (s ++ p) (t ++ q)) [
        | inr differ ↦ inr (differ, same)
        | inl whole ↦ let (salts, payloads) = append_injective s t l whole in inl (payloads, salts)
      ]
