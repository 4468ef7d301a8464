-- ===== src/Keys.antt =====
-- crates/evidence/src/keys.rs: Ed25519 keys, and signatures over the BLAKE3 digest of JCS bytes.
pub mod RoundTrip
pub mod Pem
use sealr_verify.Common.{if◌then◌else◌}
use sealr_verify.Common.Text.{Bytes, Str}
use sealr_verify.Common.Result.{Result, ok, err, EvidenceError, key, signature_invalid, ◌>>=◌}
use sealr_verify.Deps.{Digests, Ed25519}
use sealr_verify.Hash.{hex_encode, hex_decode, try_into, blake3_raw}
use sealr_verify.Json.{Value}
use sealr_verify.Jcs.{to_jcs_bytes}

-- `SigningKey`, by its seed
pub record SigningKey : Type 0 where
  pub seed : Bytes

-- `VerifyingKey`, by its bytes
pub record VerifyingKey : Type 0 where
  pub as_bytes : Bytes

unfoldable pub from_seed : Bytes → Result EvidenceError SigningKey
unfolding try_into
from_seed bytes = do seed ← try_into 32 key bytes; ok (record { seed = seed })

unfoldable pub to_hex : VerifyingKey → Str
to_hex k = hex_encode k.as_bytes

module _ ⦃e : Ed25519⦄ where
  unfoldable pub verifying_key : SigningKey → VerifyingKey
  verifying_key k = record { as_bytes = e.verifying_key k.seed }

  unfoldable pub verifying_key_hex : SigningKey → Str
  verifying_key_hex k = hex_encode (e.verifying_key k.seed)

  unfoldable pub sign_digest : SigningKey → Bytes → Str
  sign_digest k digest = hex_encode (e.sign k.seed digest)

  unfoldable pub from_bytes : Bytes → Result EvidenceError VerifyingKey
  unfolding try_into
  from_bytes bytes = do
    arr ← try_into 32 key bytes
    if e.is_point arr then ok (record { as_bytes = arr }) else err key

  unfoldable pub from_hex : Str → Result EvidenceError VerifyingKey
  from_hex hex = do bytes ← hex_decode hex; from_bytes bytes

  unfoldable pub verify_digest : VerifyingKey → Bytes → Str → Result EvidenceError (Unit {0})
  unfolding try_into
  verify_digest k digest signature_hex = do
    sig_bytes ← hex_decode signature_hex
    sig ← try_into 64 signature_invalid sig_bytes
    if e.verify k.as_bytes digest sig then ok tt else err signature_invalid

-- A structure that is signed is given by its JSON form.
module _ ⦃e : Ed25519⦄ ⦃d : Digests⦄ where
  unfoldable pub sign_jcs : SigningKey → Value → Result EvidenceError Str
  sign_jcs k value = do bytes ← to_jcs_bytes value; ok (sign_digest k (blake3_raw bytes))

  unfoldable pub sign_bytes : SigningKey → Bytes → Str
  sign_bytes k bytes = sign_digest k (blake3_raw bytes)

  unfoldable pub verify_jcs : VerifyingKey → Value → Str → Result EvidenceError (Unit {0})
  verify_jcs k value signature_hex = do
    bytes ← to_jcs_bytes value
    verify_digest k (blake3_raw bytes) signature_hex

  unfoldable pub verify_bytes : VerifyingKey → Bytes → Str → Result EvidenceError (Unit {0})
  verify_bytes k bytes signature_hex = verify_digest k (blake3_raw bytes) signature_hex
