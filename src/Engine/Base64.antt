-- ===== src/Engine/Base64.antt =====
-- crates/verify/src/engine.rs: `base64_encode` and `der_to_pem`.
pub mod RoundTrip
pub mod Pem
use sealr_verify.Common.{
  ℕ, zero, suc, ◌+◌, ◌*◌, ◌/◌, ◌%◌, Option, none, some, List, [], ◌∷◌, ◌++◌, length, take, drop,
}
use sealr_verify.Common.Text.{Bytes, Str, codes}

abbrev pub table : Str
table = codes "ABCDEFGHIJKLMNOPQRSTUVWXYZabcdefghijklmnopqrstuvwxyz0123456789+/"

-- `TABLE[i]`; the indices are below 64
unfoldable pub table_at : Str → ℕ → ℕ
table_at [] i = 0
table_at (c ∷ s) zero = c
table_at (c ∷ s) (suc i) = table_at s i

-- the character of the lowest six bits
unfoldable pub sextet : ℕ → ℕ
sextet n = table_at table (n % 64)

-- the three bytes of a chunk as one number
unfoldable pub chunk_bits : ℕ → ℕ → ℕ → ℕ
chunk_bits a b c = a * 65536 + b * 256 + c

-- the loop over the chunks of three bytes
unfoldable pub base64_encode : Bytes → Str
base64_encode [] = []
base64_encode (a ∷ []) =
    sextet (chunk_bits a 0 0 / 262144) ∷ sextet (chunk_bits a 0 0 / 4096) ∷ b'=' ∷ b'=' ∷ []
base64_encode (a ∷ b ∷ []) =
    sextet (chunk_bits a b 0 / 262144)
    ∷ sextet (chunk_bits a b 0 / 4096)
    ∷ sextet (chunk_bits a b 0 / 64)
    ∷ b'='
    ∷ []
base64_encode (a ∷ b ∷ c ∷ data_left) =
    sextet (chunk_bits a b c / 262144)
    ∷ sextet (chunk_bits a b c / 4096)
    ∷ sextet (chunk_bits a b c / 64)
    ∷ sextet (chunk_bits a b c)
    ∷ base64_encode data_left

-- the loop over the chunks of 64 characters; the text's own length is fuel enough
unfoldable pub lines_of_64 : ℕ → Str → Str
lines_of_64 zero s = []
lines_of_64 (suc f) [] = []
lines_of_64 (suc f) (c ∷ s) = take 64 (c ∷ s) ++ (codes "\n" ++ lines_of_64 f (drop 64 (c ∷ s)))

unfoldable pub der_to_pem : Bytes → Str
der_to_pem der =
    let b64 = base64_encode der in
    codes "-----BEGIN CERTIFICATE-----\n"
    ++ (lines_of_64 (length b64) b64 ++ codes "-----END CERTIFICATE-----\n")
