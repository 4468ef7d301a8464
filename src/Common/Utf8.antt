-- ===== src/Common/Utf8.antt =====
-- `String::from_utf8`: the text that bytes encode, if they encode one.
use sealr_verify.Common.{
  ℕ, zero, suc, ◌+◌, ◌*◌, ◌-◌, Bool, ◌&&◌, Option, none, some, [], ◌∷◌, ltb, leb, if◌then◌else◌,
  not,
}
use sealr_verify.Common.Text.{Bytes, Str}

-- how many bytes a sequence still wants, its bits so far, and the least character of its length
record Sequence : Type 0 where
  wanted : ℕ
  bits : ℕ
  least : ℕ

abbrev between : Sequence
between = record { wanted = 0; bits = 0; least = 0 }

-- what a byte makes of a sequence: the next state, with a character when it ends one
abbrev Step : Type 0
Step = Option (Sequence × Option ℕ)

-- the first byte of a sequence
first_byte : ℕ → Step
first_byte b =
    if ltb b 0x80
    then some (between, some b)
    else if leb 0xc2 b && ltb b 0xe0
    then some (record { wanted = 1; bits = b - 0xc0; least = 0x80 }, none)
    else if leb 0xe0 b && ltb b 0xf0
    then some (record { wanted = 2; bits = b - 0xe0; least = 0x800 }, none)
    else if leb 0xf0 b && ltb b 0xf5
    then some (record { wanted = 3; bits = b - 0xf0; least = 0x10000 }, none)
    else none

-- whether a character may end a sequence: no longer than needed, and a Unicode scalar value
is_scalar : ℕ → ℕ → Bool
is_scalar least c = leb least c && (ltb c 0x110000 && not (leb 0xd800 c && ltb c 0xe000))

-- a further byte, with `wanted` bytes to come after it
next_byte : ℕ → Sequence → ℕ → Step
unfolding is_scalar
next_byte wanted s b =
    let bits = s.bits * 64 + (b - 0x80) in
    if not (leb 0x80 b && ltb b 0xc0)
    then none
    else if ltb 0 wanted
    then some (record { wanted = wanted; bits = bits; least = s.least }, none)
    else if is_scalar s.least bits
    then some (between, some bits)
    else none

take_byte : Sequence → ℕ → ℕ → Step
unfolding first_byte next_byte
take_byte s zero b = first_byte b
take_byte s (suc n) b = next_byte n s b

emit : Option ℕ → Str → Str
emit none s = s
emit (some c) s = c ∷ s

decode : Sequence → Bytes → Option Str
unfolding take_byte emit
decode s [] = if ltb 0 s.wanted then none else some []
decode s (b ∷ bs) = elim (take_byte s s.wanted b) [
  | none ↦ none
  | some (t, out) ↦ elim (decode t bs) [ none ↦ none | some rest ↦ some (emit out rest) ]
]

unfoldable pub from_utf8 : Bytes → Option Str
unfolding decode
from_utf8 bytes = decode between bytes
