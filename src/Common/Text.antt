-- ===== src/Common/Text.antt =====
-- Texts and bytes. A Rust `str` is the list of its `char`s, each by its code point; a byte is a
-- number. `utf8` and `utf16` are the encodings that `as_bytes` and `encode_utf16` return.
use Prim.Native.Nat.{ℕ, ◌+◌, ◌-◌, ◌/◌, ◌%◌, ◌<◌}
use Prim.Native.Char.{code}
use Prim.Native.String.{String}
use mathlib.Core.Path.{◌≡◌, refl}
use mathlib.Core.Logic.{◌↔◌}
use mathlib.Core.Bool.{Bool, true, false, ◌&&◌}
use mathlib.Core.List.{List, [], ◌∷◌, ◌++◌}
use native.Mathlib.Omega.{arith}
use sealr_verify.Common.Tests.{ltb, ◌==◌, if◌then◌else◌}
use sealr_verify.Common.Lists.{All}

abbrev pub Bytes : Type 0
Bytes = List ℕ

abbrev pub Str : Type 0
Str = List ℕ

abbrev pub IsByte : ℕ → Type 0
IsByte b = b < 256

-- the code points of a literal
abbrev pub codes : String → Str
codes String.[] = []
codes (String.◌∷◌ c s) = code c ∷ codes s

unfoldable pub str_eq : Str → Str → Bool
str_eq [] [] = true
str_eq [] (b ∷ t) = false
str_eq (a ∷ s) [] = false
str_eq (a ∷ s) (b ∷ t) = a == b && str_eq s t

pub str_eq→eq : (s t : Str) → str_eq s t ≡ true → s ≡ t
unfolding str_eq
str_eq→eq [] [] h = refl
str_eq→eq [] (b ∷ t) h = cc
str_eq→eq (a ∷ s) [] h = cc
str_eq→eq (a ∷ s) (b ∷ t) h = ground (arith, str_eq→eq s t)

pub str_eq_refl : (s : Str) → str_eq s s ≡ true
unfolding str_eq
str_eq_refl [] = refl
str_eq_refl (a ∷ s) = ground (arith, str_eq_refl s)

pub str_eq_iff : (s t : Str) → (str_eq s t ≡ true) ↔ (s ≡ t)
str_eq_iff s t = (str_eq→eq s t, λ e. rw (← e) (str_eq_refl s))

-- `char::encode_utf8`
utf8_char : ℕ → Bytes
utf8_char c =
    if ltb c 0x80
    then c ∷ []
    else if ltb c 0x800
    then (0xc0 + c / 64) ∷ (0x80 + c % 64) ∷ []
    else if ltb c 0x10000
    then (0xe0 + c / 4096) ∷ (0x80 + c / 64 % 64) ∷ (0x80 + c % 64) ∷ []
    else (0xf0 + c / 262144) ∷ (0x80 + c / 4096 % 64) ∷ (0x80 + c / 64 % 64) ∷ (0x80 + c % 64) ∷ []

-- `str::as_bytes`
unfoldable pub utf8 : Str → Bytes
unfolding utf8_char
utf8 [] = []
utf8 (c ∷ s) = utf8_char c ++ utf8 s

-- `str::encode_utf16`
unfoldable pub utf16 : Str → List ℕ
utf16 [] = []
utf16 (c ∷ s) =
    (if ltb c 0x10000
      then c ∷ []
      else (0xd800 + (c - 0x10000) / 1024) ∷ (0xdc00 + (c - 0x10000) % 1024) ∷ [])
    ++ utf16 s

abbrev pub IsAscii : ℕ → Type 0
IsAscii c = c < 0x80

-- An ASCII text is its own encoding.
pub utf8_ascii : (s : Str) → All IsAscii s → utf8 s ≡ s
unfolding utf8
utf8_ascii [] h = refl
utf8_ascii (c ∷ s) h = ground (arith, utf8_ascii s h.1)
