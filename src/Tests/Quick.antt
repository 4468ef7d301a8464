-- ===== src/Tests/Quick.antt =====
-- Stand-ins for digests and signatures that are quick to compute: they keep the first byte only.
use sealr_verify.Common.{ℕ, zero, suc, ◌%◌, ◌≡◌, refl, ap, true, [], ◌∷◌, arith, length, All}
use sealr_verify.Common.Text.{Bytes, IsByte, str_eq, str_eq_refl}
use sealr_verify.Deps.{Digests, Ed25519}
use sealr_verify.Deps.Tokens.{Tokens}
use sealr_verify.Tests.Libraries.{tokens_of}

abbrev pub zeros : ℕ → Bytes
zeros zero = []
zeros (suc n) = 0 ∷ zeros n

length-zeros : (n : ℕ) → length (zeros n) ≡ n
length-zeros zero = refl
length-zeros (suc n) = ap suc (length-zeros n)

zeros-IsByte : (n : ℕ) → All IsByte (zeros n)
zeros-IsByte zero = tt
zeros-IsByte (suc n) = (omega arith, zeros-IsByte n)

-- the first byte and `n` more
unfoldable pub quick : ℕ → Bytes → Bytes
quick n [] = zeros (suc n)
quick n (b ∷ bytes) = b % 256 ∷ zeros n

pub length-quick : (n : ℕ) (b : Bytes) → length (quick n b) ≡ suc n
unfolding quick
length-quick n [] = length-zeros (suc n)
length-quick n (b ∷ bytes) = ap suc (length-zeros n)

pub quick-IsByte : (n : ℕ) (b : Bytes) → All IsByte (quick n b)
unfolding quick
quick-IsByte n [] = zeros-IsByte (suc n)
quick-IsByte n (b ∷ bytes) = (omega arith, zeros-IsByte n)

instance abbrev pub quick_digests : Digests
quick_digests = record {
  blake3 = quick 31;
  length-blake3 = length-quick 31;
  blake3-IsByte = quick-IsByte 31;
  sha256 = quick 31;
  length-sha256 = length-quick 31;
  sha256-IsByte = quick-IsByte 31;
}

instance abbrev pub quick_ed25519 : Ed25519
quick_ed25519 = record {
  verifying_key = quick 31;
  is_point = λ b. true;
  sign = λ seed message. quick 63 message;
  verify = λ key message sig. str_eq sig (quick 63 message);
  length-verifying_key = length-quick 31;
  verifying_key-IsByte = quick-IsByte 31;
  is_point-verifying_key = λ seed. refl;
  length-sign = λ seed message. length-quick 63 message;
  sign-IsByte = λ seed message. quick-IsByte 63 message;
  verify-sign = λ seed message. str_eq_refl (quick 63 message);
}

instance abbrev pub quick_tokens : Tokens
quick_tokens = tokens_of (quick 31)
