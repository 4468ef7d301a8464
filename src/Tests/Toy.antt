-- ===== src/Tests/Toy.antt =====
-- Stand-ins for the libraries: short computations that keep what the interfaces state.
use sealr_verify.Common.{
  ℕ, zero, suc, ◌+◌, ◌*◌, ◌/◌, ◌%◌, ◌≡◌, refl, ap, Bool, true, Option, none, some, [], ◌∷◌, ◌++◌,
  arith, length, All, ◌==◌, if◌then◌else◌,
}
use sealr_verify.Common.Text.{Bytes, Str, IsByte, str_eq, str_eq_refl}
use sealr_verify.Deps.{Digests, Ed25519, Ulids, Chrono}

-- a sum in base 31, spread over `n` bytes
mix : ℕ → Bytes → ℕ
mix acc [] = acc
mix acc (b ∷ bs) = mix (acc * 31 + b + 1) bs

spread : ℕ → ℕ → Bytes
spread zero x = []
spread (suc n) x = x % 256 ∷ spread n (x / 256 + 7)

length-spread : (n x : ℕ) → length (spread n x) ≡ n
unfolding spread
length-spread zero x = refl
length-spread (suc n) x = ap suc (length-spread n (x / 256 + 7))

spread-IsByte : (n x : ℕ) → All IsByte (spread n x)
unfolding spread
spread-IsByte zero x = tt
spread-IsByte (suc n) x = (omega arith, spread-IsByte n (x / 256 + 7))

unfoldable pub toy_hash : ℕ → Bytes → Bytes
unfolding mix spread
toy_hash n b = spread n (mix n b)

pub length-toy_hash : (n : ℕ) (b : Bytes) → length (toy_hash n b) ≡ n
unfolding toy_hash
length-toy_hash n b = length-spread n _

pub toy_hash-IsByte : (n : ℕ) (b : Bytes) → All IsByte (toy_hash n b)
unfolding toy_hash
toy_hash-IsByte n b = spread-IsByte n _

instance abbrev pub toy_digests : Digests
toy_digests = record {
  blake3 = toy_hash 32;
  length-blake3 = length-toy_hash 32;
  blake3-IsByte = toy_hash-IsByte 32;
  sha256 = λ b. toy_hash 32 (1 ∷ b);
  length-sha256 = λ b. length-toy_hash 32 (1 ∷ b);
  sha256-IsByte = λ b. toy_hash-IsByte 32 (1 ∷ b);
}

-- a signature is a hash under the public key
unfoldable pub toy_sign : Bytes → Bytes → Bytes
toy_sign key message = toy_hash 64 (key ++ message)

unfoldable pub toy_verify : Bytes → Bytes → Bytes → Bool
unfolding toy_sign
toy_verify key message sig = str_eq sig (toy_sign key message)

pub length-toy_sign : (key message : Bytes) → length (toy_sign key message) ≡ 64
unfolding toy_sign
length-toy_sign key message = length-toy_hash 64 _

pub toy_sign-IsByte : (key message : Bytes) → All IsByte (toy_sign key message)
unfolding toy_sign
toy_sign-IsByte key message = toy_hash-IsByte 64 _

pub toy_verify-toy_sign :
    (key message : Bytes) → toy_verify key message (toy_sign key message) ≡ true
unfolding toy_verify
toy_verify-toy_sign key message = str_eq_refl _

instance abbrev pub toy_ed25519 : Ed25519
toy_ed25519 = record {
  verifying_key = toy_hash 32;
  is_point = λ b. true;
  sign = λ seed message. toy_sign (toy_hash 32 seed) message;
  verify = toy_verify;
  length-verifying_key = length-toy_hash 32;
  verifying_key-IsByte = toy_hash-IsByte 32;
  is_point-verifying_key = λ seed. refl;
  length-sign = λ seed message. length-toy_sign (toy_hash 32 seed) message;
  sign-IsByte = λ seed message. toy_sign-IsByte (toy_hash 32 seed) message;
  verify-sign = λ seed message. toy_verify-toy_sign (toy_hash 32 seed) message;
}

-- an identifier is written as that many letters
unfoldable pub toy_ulid : ℕ → Str
toy_ulid zero = []
toy_ulid (suc n) = b'u' ∷ toy_ulid n

unfoldable pub toy_parse : Str → Option ℕ
toy_parse [] = some 0
toy_parse (c ∷ s) = elim (toy_parse s) [
  | none ↦ none
  | some n ↦ if c == b'u' then some (suc n) else none
]

pub toy_parse-toy_ulid : (n : ℕ) → toy_parse (toy_ulid n) ≡ some n
unfolding toy_parse toy_ulid
toy_parse-toy_ulid zero = refl
toy_parse-toy_ulid (suc n) = rw (toy_parse-toy_ulid n, toy_parse)

instance abbrev pub toy_ulids : Ulids
toy_ulids = record { to_string = toy_ulid; parse = toy_parse; parse-to_string = toy_parse-toy_ulid }

-- a time is a number of seconds, one letter for each
unfoldable pub toy_time : Str → Option ℕ
toy_time [] = some 0
toy_time (c ∷ s) = elim (toy_time s) [
  | none ↦ none
  | some n ↦ if c == b's' then some (n + 1_000_000_000) else none
]

instance abbrev pub toy_chrono : Chrono
toy_chrono = record { parse_from_rfc3339 = toy_time }
