-- ===== src/Hash/RoundTrip.antt =====
-- Encoding then decoding gives the bytes back; decoding then encoding gives the text in lowercase.
use Prim.Native.Nat.{bit_or}
use sealr_verify.Common.{
  false, ◌∙◌, sym, ℕ, zero, suc, ◌+◌, ◌*◌, ◌/◌, ◌%◌, ◌^◌, ◌<◌, ◌≤◌, ◌⊎◌, ◌≡◌, refl, ap, true, Bool,
  ◌&&◌, [], ◌∷◌, arith, leb, ◌==◌, ==_iff, if◌then◌else◌, length, All, map, Bool-cases, inl, inr,
}
use sealr_verify.Common.Text.{Bytes, Str, IsByte, IsAscii, utf8, utf8_ascii}
use sealr_verify.Common.Result.{invalid_hex, EvidenceError, ok, >>=-eq-ok}
use sealr_verify.Hash.{
  digest_len, hex_digit, hex_encode, hex_val, decode_pairs, hex_decode, hex_decode_digest, try_into,
}

holds_below : (ℕ → Bool) → ℕ → Bool
holds_below test zero = true
holds_below test (suc n) = if test n then holds_below test n else false

holds_below_sound :
    (test : ℕ → Bool) (n : ℕ) {x : ℕ} → x < n → holds_below test n ≡ true → test x ≡ true
unfolding holds_below
holds_below_sound test zero below h = absurd (omega arith)
holds_below_sound test (suc n) {x} below h = elim (Bool-cases (test n)) [
  | inr no_n ↦ absurd (cc (rw no_n at h))
  | inl yes_n ↦ elim (Bool-cases (x == n)) [
    | inl last ↦ let same : x ≡ n = (==_iff x n).0 last in rw same yes_n
    | inr before ↦ holds_below_sound test n (ground arith) (rw yes_n at h)
  ]
]

nibbles_table : holds_below (λ b. bit_or (b / 16 * 2 ^ 4 % 256) (b % 16) == b) 256 ≡ true
unfolding holds_below
nibbles_table = refl

join_nibbles : (hi lo : ℕ) → hi < 16 → lo < 16 → bit_or (hi * 2 ^ 4 % 256) lo ≡ hi * 16 + lo
join_nibbles hi lo h l =
    let b = hi * 16 + lo in
    let below : b < 256 = omega arith in
    let e : bit_or (b / 16 * 2 ^ 4 % 256) (b % 16) ≡ b =
      (==_iff _ b).0 (holds_below_sound _ 256 below nibbles_table) in
    let p : b / 16 ≡ hi = omega arith in let q : b % 16 ≡ lo = omega arith in rw (p, q) at e

hex_val-hex_digit : (n : ℕ) → n < 16 → hex_val (hex_digit n) ≡ ok n
unfolding hex_val hex_digit
hex_val-hex_digit n h = ground arith

hex_digit-IsAscii : (n : ℕ) → n < 16 → IsAscii (hex_digit n)
unfolding hex_digit
hex_digit-IsAscii n h = ground arith

pub hex_encode-IsAscii : (b : Bytes) → All IsByte b → All IsAscii (hex_encode b)
unfolding hex_encode
hex_encode-IsAscii [] h = tt
hex_encode-IsAscii (b ∷ bs) (hb, h) = (
  hex_digit-IsAscii (b / 16) (omega arith),
  (hex_digit-IsAscii (b % 16) (omega arith), hex_encode-IsAscii bs h),
)

pub length-hex_encode : (b : Bytes) → length (hex_encode b) ≡ 2 * length b
unfolding hex_encode
length-hex_encode [] = refl
length-hex_encode (b ∷ bs) = omega (arith, length-hex_encode bs)

decode_pairs-hex_encode : (b : Bytes) → All IsByte b → decode_pairs (hex_encode b) ≡ ok b
unfolding hex_encode decode_pairs
decode_pairs-hex_encode [] h = refl
decode_pairs-hex_encode (b ∷ bs) (hb, h) =
    rw
      (
        hex_val-hex_digit (b / 16) (omega arith),
        hex_val-hex_digit (b % 16) (omega arith),
        decode_pairs-hex_encode bs h,
        join_nibbles (b / 16) (b % 16) (omega arith) (omega arith),
      )
      (ap (λ x. ok (x ∷ bs)) (omega arith))

-- Bytes written as hex are read back.
pub hex_decode-hex_encode : (b : Bytes) → All IsByte b → hex_decode (hex_encode b) ≡ ok b
unfolding hex_decode
hex_decode-hex_encode b h =
    let e : (length (hex_encode b) % 2 == 0) ≡ true =
      (==_iff _ 0).1 (omega (arith, length-hex_encode b)) in
    rw (utf8_ascii (hex_encode b) (hex_encode-IsAscii b h), e) (decode_pairs-hex_encode b h)

-- A digest of 32 bytes written as hex is read back.
pub hex_decode_digest-hex_encode :
    (b : Bytes) → All IsByte b → length b ≡ digest_len → hex_decode_digest (hex_encode b) ≡ ok b
unfolding hex_decode_digest try_into
hex_decode_digest-hex_encode b h l =
    rw (hex_decode-hex_encode b h, (==_iff (length b) digest_len).1 l)

-- the lowercase form of a hex digit
abbrev pub to_lower : ℕ → ℕ
to_lower c = if leb b'A' c && leb c b'F' then c + 32 else c

abbrev pub IsHexDigit : ℕ → Type 0
IsHexDigit c = ((b'0' ≤ c) × (c ≤ b'9')) ⊎ ((b'a' ≤ c) × (c ≤ b'f')) ⊎ ((b'A' ≤ c) × (c ≤ b'F'))

hex_val_sound : (c n : ℕ) → hex_val c ≡ ok n → (n < 16) × (hex_digit n ≡ to_lower c) × IsHexDigit c
unfolding hex_val hex_digit
hex_val_sound c n h = ground arith

-- what a decoded text must be
pub record IsSpelling (b : Bytes) (s : Bytes) : Type 0 where
  pub bytes : All IsByte b
  pub lower : hex_encode b ≡ map to_lower s
  pub digits : All IsHexDigit s
  pub size : length s ≡ 2 * length b

pair-IsSpelling :
    (x y hi lo : ℕ) (out s : Bytes)
    → (hi < 16) × (hex_digit hi ≡ to_lower x) × IsHexDigit x
    → (lo < 16) × (hex_digit lo ≡ to_lower y) × IsHexDigit y
    → IsSpelling out s
    → IsSpelling ((hi * 16 + lo) ∷ out) (x ∷ y ∷ s)
unfolding hex_encode
pair-IsSpelling x y hi lo out s (bh, eh, dh) (bl, el, dl) r =
    let p : (hi * 16 + lo) / 16 ≡ hi = omega arith in
    let q : (hi * 16 + lo) % 16 ≡ lo = omega arith in
    record {
      bytes = (omega arith, r.bytes);
      lower = rw (p, q, eh, el, r.lower);
      digits = (dh, (dl, r.digits));
      size = omega (arith, r.size);
    }

decode_pairs_sound : (s b : Bytes) → length s % 2 ≡ 0 → decode_pairs s ≡ ok b → IsSpelling b s
unfolding decode_pairs
decode_pairs_sound [] b e h =
    let eb : [] ≡ b = cc in
    rw (← eb) (record { bytes = tt; lower = unfold hex_encode in refl; digits = tt; size = refl })
decode_pairs_sound (x ∷ []) b e h = absurd (omega arith)
decode_pairs_sound (x ∷ y ∷ s) b e h =
    let (hi, ex, h1) = >>=-eq-ok (hex_val x) _ h in
    let (lo, ey, h2) = >>=-eq-ok (hex_val y) _ h1 in
    let (out, er, h3) = >>=-eq-ok (decode_pairs s) _ h2 in
    let px = hex_val_sound x hi ex in
    let py = hex_val_sound y lo ey in
    let eb : bit_or (hi * 2 ^ 4 % 256) lo ∷ out ≡ b = cc in
    rw (← eb, join_nibbles hi lo px.0 py.0)
      (pair-IsSpelling x y hi lo out s px py (decode_pairs_sound s out (omega arith) er))

-- A text that decodes is an even number of hex digits, and its bytes are written as its lowercase.
pub hex_decode_sound : (s : Str) (b : Bytes) → hex_decode s ≡ ok b → IsSpelling b (utf8 s)
unfolding hex_decode
hex_decode_sound s b h = elim (Bool-cases (length (utf8 s) % 2 == 0)) [
  | inl e ↦ decode_pairs_sound (utf8 s) b ((==_iff _ 0).0 e) (rw e at h)
  | inr e ↦ absurd (cc (rw e at h))
]

-- Different byte strings have different hex.
pub hex_encode_injective :
    (a b : Bytes) → All IsByte a → All IsByte b → hex_encode a ≡ hex_encode b → a ≡ b
hex_encode_injective a b ha hb h =
    let back : ok a ≡ ok b =
      sym (hex_decode-hex_encode a ha) ∙ ap hex_decode h ∙ hex_decode-hex_encode b hb in
    cc

try_into_sound : (n : ℕ) (e : EvidenceError) (v b : Bytes) → try_into n e v ≡ ok b → length b ≡ n
unfolding try_into
try_into_sound n e v b h = elim (Bool-cases (length v == n)) [
  | inl t ↦ let same : v ≡ b = cc (rw t at h) in rw (← same) ((==_iff (length v) n).0 t)
  | inr t ↦ absurd (cc (rw t at h))
]

-- What `hex_decode_digest` returns has 32 bytes.
pub length-hex_decode_digest : (s : Str) (b : Bytes) → hex_decode_digest s ≡ ok b → length b ≡ 32
unfolding hex_decode_digest
length-hex_decode_digest s b h =
    let (v, read, h2) = >>=-eq-ok (hex_decode s) _ h in try_into_sound 32 invalid_hex v b h2
