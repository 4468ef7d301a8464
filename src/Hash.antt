-- ===== src/Hash.antt =====
-- crates/evidence/src/hash.rs: digests, and bytes as lowercase hex.
pub mod RoundTrip
pub mod Collision
use Prim.Native.Nat.{bit_or}
use sealr_verify.Common.{
  ℕ, ◌+◌, ◌-◌, ◌*◌, ◌/◌, ◌%◌, ◌^◌, ◌&&◌, List, [], ◌∷◌, ltb, leb, ◌==◌, if◌then◌else◌, length,
}
use sealr_verify.Common.Text.{Bytes, Str, utf8}
use sealr_verify.Common.Result.{Result, ok, err, EvidenceError, invalid_hex, ◌>>=◌}
use sealr_verify.Deps.{Digests}

abbrev pub digest_len : ℕ
digest_len = 32

-- one digit of `{b:02x}`
hex_digit : ℕ → ℕ
hex_digit n = if ltb n 10 then b'0' + n else b'a' + (n - 10)

unfoldable pub hex_encode : Bytes → Str
unfolding hex_digit
hex_encode [] = []
hex_encode (b ∷ bs) = hex_digit (b / 16) ∷ hex_digit (b % 16) ∷ hex_encode bs

hex_val : ℕ → Result EvidenceError ℕ
hex_val c =
    if leb b'0' c && leb c b'9'
    then ok (c - b'0')
    else if leb b'a' c && leb c b'f'
    then ok (c - b'a' + 10)
    else if leb b'A' c && leb c b'F'
    then ok (c - b'A' + 10)
    else err invalid_hex

-- the loop over `chunks_exact(2)`, which passes over a last odd byte
decode_pairs : Bytes → Result EvidenceError Bytes
unfolding hex_val
decode_pairs [] = ok []
decode_pairs (x ∷ []) = ok []
decode_pairs (x ∷ y ∷ rest) = do
  hi ← hex_val x
  lo ← hex_val y
  out ← decode_pairs rest
  ok (bit_or (hi * 2 ^ 4 % 256) lo ∷ out)

unfoldable pub hex_decode : Str → Result EvidenceError Bytes
unfolding decode_pairs
hex_decode s = if length (utf8 s) % 2 == 0 then decode_pairs (utf8 s) else err invalid_hex

-- `try_into` an array of the given length
unfoldable pub try_into : ℕ → EvidenceError → Bytes → Result EvidenceError Bytes
try_into n e v = if length v == n then ok v else err e

unfoldable pub hex_decode_digest : Str → Result EvidenceError Bytes
unfolding hex_decode try_into
hex_decode_digest s = do v ← hex_decode s; try_into digest_len invalid_hex v

module _ ⦃d : Digests⦄ where
  unfoldable pub blake3_hex : Bytes → Str
  blake3_hex bytes = hex_encode (d.blake3 bytes)

  unfoldable pub blake3_raw : Bytes → Bytes
  blake3_raw bytes = d.blake3 bytes

  unfoldable pub sha256_hex : Bytes → Str
  sha256_hex bytes = hex_encode (d.sha256 bytes)

  unfoldable pub sha256_raw : Bytes → Bytes
  sha256_raw bytes = d.sha256 bytes
