-- ===== src/Deps.antt =====
-- What the crates take from libraries that are not in the repository, as interfaces: the operations
-- that the source calls, and the documented behaviour that it relies on. The rest of the
-- development takes them as instance arguments.
pub mod Archives
pub mod X509
pub mod Tokens
use sealr_verify.Common.{ℕ, Bool, true, Option, some, ◌≡◌, length, All}
use sealr_verify.Common.Text.{Bytes, Str, IsByte}
use sealr_verify.Json.{Value}

-- The crates `blake3` and `sha2`: digests of 32 bytes.
pub record Digests : Type 0 where
  pub blake3 : Bytes → Bytes
  pub length-blake3 : (b : Bytes) → length (blake3 b) ≡ 32
  pub blake3-IsByte : (b : Bytes) → All IsByte (blake3 b)
  pub sha256 : Bytes → Bytes
  pub length-sha256 : (b : Bytes) → length (sha256 b) ≡ 32
  pub sha256-IsByte : (b : Bytes) → All IsByte (sha256 b)

-- The crate `ed25519_dalek`: a signing key by its seed, a verifying key by its 32 bytes.
pub record Ed25519 : Type 0 where
  pub verifying_key : Bytes → Bytes
  -- whether `VerifyingKey::from_bytes` accepts 32 bytes
  pub is_point : Bytes → Bool
  pub sign : Bytes → Bytes → Bytes
  pub verify : Bytes → Bytes → Bytes → Bool
  pub length-verifying_key : (seed : Bytes) → length (verifying_key seed) ≡ 32
  pub verifying_key-IsByte : (seed : Bytes) → All IsByte (verifying_key seed)
  pub is_point-verifying_key : (seed : Bytes) → is_point (verifying_key seed) ≡ true
  pub length-sign : (seed message : Bytes) → length (sign seed message) ≡ 64
  pub sign-IsByte : (seed message : Bytes) → All IsByte (sign seed message)
  pub verify-sign :
      (seed message : Bytes) → verify (verifying_key seed) message (sign seed message) ≡ true

-- The crate `ulid`: an identifier by its 128-bit number.
pub record Ulids : Type 0 where
  pub to_string : ℕ → Str
  pub parse : Str → Option ℕ
  pub parse-to_string : (u : ℕ) → parse (to_string u) ≡ some u

-- The crate `chrono`: a `DateTime<Utc>` by its nanoseconds since the earliest one that there is,
-- which falls on a whole day.
pub record Chrono : Type 0 where
  pub parse_from_rfc3339 : Str → Option ℕ

-- The crate `serde_json`: the value that a line is parsed to.
pub record Serde : Type 0 where
  pub from_slice : Bytes → Option Value

-- The crate `ed25519_dalek` with its feature `pkcs8`: the PEM forms of a seed and of the bytes of a
-- verifying key.
pub record KeyPems : Type 0 where
  pub from_pkcs8_pem : Str → Option Bytes
  pub to_pkcs8_pem : Bytes → Option Str
  pub from_public_key_pem : Str → Option Bytes
  pub to_public_key_pem : Bytes → Option Str
  pub from_pkcs8_pem-to_pkcs8_pem :
      (seed : Bytes) (pem : Str) → to_pkcs8_pem seed ≡ some pem → from_pkcs8_pem pem ≡ some seed
  pub from_public_key_pem-to_public_key_pem :
      (key : Bytes) (pem : Str)
      → to_public_key_pem key ≡ some pem
      → from_public_key_pem pem ≡ some key
