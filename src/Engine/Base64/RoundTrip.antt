-- ===== src/Engine/Base64/RoundTrip.antt =====
-- The encoding against the decoder of RFC 4648.
use sealr_verify.Common.{
  ℕ, zero, suc, ◌+◌, ◌-◌, ◌*◌, ◌/◌, ◌%◌, ◌<◌, ◌≡◌, refl, Bool, true, false, ◌&&◌, Bool-cases, inl,
  inr, [], ◌∷◌, ltb, ◌==◌, ==_iff, if◌then◌else◌, All, arith,
}
use sealr_verify.Common.Text.{Bytes, Str, IsByte}
use sealr_verify.Engine.Base64.{table, table_at, sextet, chunk_bits, base64_encode}

-- the value of a character
unfoldable pub value_of : ℕ → ℕ
value_of c =
    if c == b'+'
    then 62
    else if c == b'/'
    then 63
    else if ltb c b'A'
    then c + 52 - b'0'
    else if ltb c b'a'
    then c - b'A'
    else c + 26 - b'a'

-- four characters give three bytes, or fewer before padding
unfoldable pub decode : Str → Bytes
decode [] = []
decode (p ∷ []) = []
decode (p ∷ q ∷ []) = []
decode (p ∷ q ∷ r ∷ []) = []
decode (p ∷ q ∷ r ∷ s ∷ more) =
    let n = value_of p * 262144 + value_of q * 4096 + value_of r * 64 + value_of s in
    let two = value_of p * 4 + value_of q / 16 in
    let three = value_of q % 16 * 16 + value_of r / 4 in
    let rest = decode more in
    if r == b'='
    then two ∷ []
    else if s == b'='
    then two ∷ three ∷ []
    else (n / 65536) ∷ (n / 256 % 256) ∷ (n % 256) ∷ rest

check_below : ℕ → (ℕ → Bool) → Bool
check_below zero p = true
check_below (suc n) p = p n && check_below n p

check_below_sound : (n : ℕ) (p : ℕ → Bool) (i : ℕ) → check_below n p ≡ true → i < n → p i ≡ true
unfolding check_below
check_below_sound zero p i h lt = absurd (omega arith)
check_below_sound (suc n) p i h lt = elim (Bool-cases (p n)) [
  | inr e ↦ absurd (cc (rw e at h))
  | inl e ↦ elim (Bool-cases (i == n)) [
    | inl s ↦ let same : i ≡ n = (==_iff i n).0 s in rw same e
    | inr s ↦ check_below_sound n p i (rw e at h) (ground (arith))
  ]
]

value_of-table_at : (i : ℕ) → i < 64 → value_of (table_at table i) ≡ i
unfolding value_of table_at check_below
value_of-table_at i h =
    (==_iff _ _).0 (check_below_sound 64 (λ i. value_of (table_at table i) == i) i refl h)

-- whether a character is none of the table
abbrev not_in_table : ℕ → ℕ → Bool
not_in_table c i = if table_at table i == c then false else true

table_at-ne :
    (c i : ℕ) → check_below 64 (not_in_table c) ≡ true → i < 64 → (table_at table i == c) ≡ false
table_at-ne c i all h = elim (Bool-cases (table_at table i == c)) [
  | inr e ↦ e
  | inl e ↦
      let other : not_in_table c i ≡ true = check_below_sound 64 (not_in_table c) i all h in
      absurd (cc (rw e at other))
]

value_of-sextet : (n : ℕ) → value_of (sextet n) ≡ n % 64
unfolding sextet
value_of-sextet n = value_of-table_at (n % 64) (omega arith)

sextet-ne-pad : (n : ℕ) → (sextet n == b'=') ≡ false
unfolding sextet table_at check_below
sextet-ne-pad n = table_at-ne b'=' (n % 64) refl (omega arith)

pub sextet-ne-newline : (n : ℕ) → (sextet n == 10) ≡ false
unfolding sextet table_at check_below
sextet-ne-newline n = table_at-ne 10 (n % 64) refl (omega arith)

first_of :
    (a b c : ℕ)
    → a < 256
    → b < 256
    → c < 256
    → (chunk_bits a b c / 262144) % 64 * 4 + (chunk_bits a b c / 4096) % 64 / 16 ≡ a
unfolding chunk_bits
first_of a b c x y w = omega arith

second_of :
    (a b c : ℕ)
    → a < 256
    → b < 256
    → c < 256
    → (chunk_bits a b c / 4096) % 64 % 16 * 16 + (chunk_bits a b c / 64) % 64 / 4 ≡ b
unfolding chunk_bits
second_of a b c x y w = omega arith

whole_of :
    (a b c : ℕ)
    → a < 256
    → b < 256
    → c < 256
    → (chunk_bits a b c / 262144) % 64 * 262144
        + (chunk_bits a b c / 4096) % 64 * 4096
        + (chunk_bits a b c / 64) % 64 * 64
        + chunk_bits a b c % 64
      ≡ chunk_bits a b c
unfolding chunk_bits
whole_of a b c x y w = omega arith

bytes_of :
    (a b c : ℕ)
    → b < 256
    → c < 256
    → (chunk_bits a b c / 65536 ≡ a)
      × (chunk_bits a b c / 256 % 256 ≡ b)
      × (chunk_bits a b c % 256 ≡ c)
unfolding chunk_bits
bytes_of a b c y w = (omega arith, omega arith, omega arith)

-- Bytes that are encoded are decoded again.
pub decode-base64_encode : (b : Bytes) → All IsByte b → decode (base64_encode b) ≡ b
unfolding base64_encode decode
decode-base64_encode [] h = refl
decode-base64_encode (a ∷ []) (x, h) = rw (
  value_of-sextet (chunk_bits a 0 0 / 262144),
  value_of-sextet (chunk_bits a 0 0 / 4096),
  first_of a 0 0 x (omega arith) (omega arith),
)
decode-base64_encode (a ∷ b ∷ []) (x, (y, h)) = rw (
  value_of-sextet (chunk_bits a b 0 / 262144),
  value_of-sextet (chunk_bits a b 0 / 4096),
  value_of-sextet (chunk_bits a b 0 / 64),
  sextet-ne-pad (chunk_bits a b 0 / 64),
  first_of a b 0 x y (omega arith),
  second_of a b 0 x y (omega arith),
)
decode-base64_encode (a ∷ b ∷ c ∷ l) (x, (y, (w, h))) =
    let (first, second, third) = bytes_of a b c y w in
    rw (
      value_of-sextet (chunk_bits a b c / 262144),
      value_of-sextet (chunk_bits a b c / 4096),
      value_of-sextet (chunk_bits a b c / 64),
      value_of-sextet (chunk_bits a b c),
      sextet-ne-pad (chunk_bits a b c / 64),
      sextet-ne-pad (chunk_bits a b c),
      whole_of a b c x y w,
      first,
      second,
      third,
      decode-base64_encode l h,
    )
