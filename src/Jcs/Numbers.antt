-- ===== src/Jcs/Numbers.antt =====
-- What the digits of a number in canonical JSON say.
use sealr_verify.Common.{
  ℕ, zero, suc, ◌+◌, ◌-◌, ◌*◌, ◌/◌, ◌%◌, ◌^◌, ◌≤◌, ◌<◌, ◌≡◌, refl, ap, sym, ◌∙◌, Bool, true, false,
  ◌&&◌, Bool-cases, inl, inr, [], ◌∷◌, All, ltb, leb, leb→le, ◌==◌, if◌then◌else◌, arith,
}
use sealr_verify.Common.Text.{Bytes}
use sealr_verify.Common.Result.{ok}
use sealr_verify.Json.{Double, Number, pos_int, neg_int, float}
use sealr_verify.Jcs.{
  max_safe_integer, decimal_loop, decimal, signed_decimal, is_integral, magnitude, write_number,
}

-- digits as a number, behind the value of the digits before them
abbrev pub digits_value : ℕ → Bytes → ℕ
digits_value acc [] = acc
digits_value acc (c ∷ s) = digits_value (acc * 10 + (c - b'0')) s

-- an integer with its sign
abbrev pub read_int : Bytes → Bool × ℕ
read_int [] = (false, 0)
read_int (c ∷ s) = if c == b'-' then (true, digits_value 0 s) else (false, digits_value 0 (c ∷ s))

abbrev pub IsDigit : ℕ → Type 0
IsDigit c = (b'0' ≤ c) × (c ≤ b'9')

decimal_loop-value :
    (f n : ℕ) (out : Bytes) → n < f → digits_value 0 (decimal_loop f n out) ≡ digits_value n out
unfolding decimal_loop
decimal_loop-value zero n out h = absurd (omega arith)
decimal_loop-value (suc f) n out h = elim (Bool-cases (ltb n 10)) [
  | inl t ↦ rw (t, decimal_loop) (ap (λ x. digits_value x out) (omega arith))
  | inr t ↦
      rw (t, decimal_loop)
        (decimal_loop-value f (n / 10) ((b'0' + n % 10) ∷ out) (ground (arith, t))
          ∙ ap (λ x. digits_value x out) (omega arith))
]

decimal_loop-IsDigit :
    (f n : ℕ) (out : Bytes) → n < f → All IsDigit out → All IsDigit (decimal_loop f n out)
unfolding decimal_loop
decimal_loop-IsDigit zero n out h d = absurd (omega arith)
decimal_loop-IsDigit (suc f) n out h d = elim (Bool-cases (ltb n 10)) [
  | inl t ↦ rw (t, decimal_loop) ((omega arith, ground (arith, t)), d)
  | inr t ↦
      rw (t, decimal_loop)
        (decimal_loop-IsDigit f (n / 10) ((b'0' + n % 10) ∷ out) (ground (arith, t))
          ((omega arith, omega arith), d))
]

read_int_digits : (b : Bytes) → All IsDigit b → read_int b ≡ (false, digits_value 0 b)
read_int_digits [] d = refl
read_int_digits (c ∷ s) d = let t : (c == b'-') ≡ false = ground (arith, d.0) in rw t refl

read_int-decimal : (n : ℕ) → read_int (decimal n) ≡ (false, n)
unfolding decimal
read_int-decimal n =
    read_int_digits (decimal_loop (suc n) n []) (decimal_loop-IsDigit (suc n) n [] (omega arith) tt)
    ∙ ap (λ x. (false, x)) (decimal_loop-value (suc n) n [] (omega arith))

decimal-value : (n : ℕ) → digits_value 0 (decimal n) ≡ n
unfolding decimal
decimal-value n = decimal_loop-value (suc n) n [] (omega arith)

read_int-signed_decimal :
    (negative : Bool) (n : ℕ) → read_int (signed_decimal negative n) ≡ (negative && ltb 0 n, n)
unfolding signed_decimal
read_int-signed_decimal negative n = elim (Bool-cases (negative && ltb 0 n)) [
  | inl t ↦ rw t (ap (λ (x : ℕ). (true, x)) (decimal-value n))
  | inr t ↦ rw t (read_int-decimal n)
]

-- the integer that a number is, by its sign and its absolute value
abbrev pub IsInteger : Number → Bool → ℕ → Type 0
IsInteger (pos_int u) negative m = (negative ≡ false) × (m ≡ u)
IsInteger (neg_int n) negative m = (negative ≡ true) × (m ≡ n)
IsInteger (float f) negative m = (negative ≡ f.negative) × (f.mantissa * 2 ^ f.up ≡ m * 2 ^ f.down)

exact : (a d : ℕ) → (a % d == 0) ≡ true → a ≡ a / d * d
exact a d h = grind arith

exact_double :
    (f : Double) → is_integral f ≡ true → f.mantissa * 2 ^ f.up ≡ magnitude f * 2 ^ f.down
unfolding is_integral magnitude
exact_double f h = exact (f.mantissa * 2 ^ f.up) (2 ^ f.down) h

-- A number that is written is an integer of at most 2^53 - 1 in absolute value, and the text reads
-- as that integer; zero has no sign.
pub write_number_sound :
    (x : Number) (b : Bytes)
    → write_number x ≡ ok b
    → (negative : Bool) × (m : ℕ) × IsInteger x negative m
      × (m ≤ max_safe_integer)
      × (read_int b ≡ (negative && ltb 0 m, m))
unfolding write_number
write_number_sound (pos_int u) b h = elim (Bool-cases (ltb max_safe_integer u)) [
  | inl t ↦ absurd (cc (rw t at h))
  | inr t ↦
      let same : decimal u ≡ b = cc (rw t at h) in
      (false, u, (refl, refl), ground (arith, t), ap read_int (sym same) ∙ read_int-decimal u)
]
write_number_sound (neg_int n) b h = elim (Bool-cases (ltb max_safe_integer n)) [
  | inl t ↦ absurd (cc (rw t at h))
  | inr t ↦
      let same : signed_decimal true n ≡ b = cc (rw t at h) in
      (
        true,
        n,
        (refl, refl),
        ground (arith, t),
        ap read_int (sym same) ∙ read_int-signed_decimal true n,
      )
]
write_number_sound (float f) b h = elim (Bool-cases (is_integral f)) [
  | inr t ↦ absurd (cc (rw t at h))
  | inl t ↦ elim (Bool-cases (leb (magnitude f) max_safe_integer)) [
    | inr l ↦ absurd (cc (rw (t, l) at h))
    | inl l ↦
        let same : signed_decimal f.negative (magnitude f) ≡ b = cc (rw (t, l) at h) in
        (
          f.negative,
          magnitude f,
          (refl, exact_double f t),
          leb→le (magnitude f) max_safe_integer l,
          ap read_int (sym same) ∙ read_int-signed_decimal f.negative (magnitude f),
        )
  ]
]
