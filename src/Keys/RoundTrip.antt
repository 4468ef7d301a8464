-- ===== src/Keys/RoundTrip.antt =====
-- Signatures and keys that the code writes are accepted and read back.
use sealr_verify.Common.{◌≡◌, ==_iff}
use sealr_verify.Common.Text.{Bytes, Str}
use sealr_verify.Common.Result.{ok, >>=-eq-ok}
use sealr_verify.Deps.{Digests, Ed25519}
use sealr_verify.Hash.{try_into, blake3_raw}
use sealr_verify.Hash.RoundTrip.{hex_decode-hex_encode}
use sealr_verify.Json.{Value}
use sealr_verify.Jcs.{to_jcs_bytes}
use sealr_verify.Keys.{
  SigningKey, verifying_key, to_hex, from_hex, from_bytes, sign_digest, verify_digest, sign_jcs,
  verify_jcs,
}

module _ ⦃e : Ed25519⦄ where
  -- A signature over a digest verifies under the public half of the key that made it.
  pub verify_digest-sign_digest :
      (k : SigningKey) (digest : Bytes)
      → verify_digest (verifying_key k) digest (sign_digest k digest) ≡ ok tt
  unfolding verify_digest sign_digest verifying_key try_into
  verify_digest-sign_digest k digest = rw (
    hex_decode-hex_encode (e.sign k.seed digest) (e.sign-IsByte k.seed digest),
    (==_iff _ 64).1 (e.length-sign k.seed digest),
    e.verify-sign k.seed digest,
  )

  -- A public key written as hex is read back.
  pub from_hex-to_hex :
      (k : SigningKey) → from_hex (to_hex (verifying_key k)) ≡ ok (verifying_key k)
  unfolding from_hex to_hex from_bytes verifying_key try_into
  from_hex-to_hex k = rw (
    hex_decode-hex_encode (e.verifying_key k.seed) (e.verifying_key-IsByte k.seed),
    (==_iff _ 32).1 (e.length-verifying_key k.seed),
    e.is_point-verifying_key k.seed,
  )

module _ ⦃e : Ed25519⦄ ⦃d : Digests⦄ where
  -- A signature over a structure verifies for that structure, under the key that made it.
  pub verify_jcs-sign_jcs :
      (k : SigningKey) (value : Value) (sig : Str)
      → sign_jcs k value ≡ ok sig
      → verify_jcs (verifying_key k) value sig ≡ ok tt
  unfolding sign_jcs verify_jcs
  verify_jcs-sign_jcs k value sig h =
      let (bytes, j, h2) = >>=-eq-ok (to_jcs_bytes value) _ h in
      let same : sign_digest k (blake3_raw bytes) ≡ sig = cc in
      rw (j, ← same) (verify_digest-sign_digest k (blake3_raw bytes))
