-- ===== src/Jcs.antt =====
-- crates/evidence/src/jcs.rs: canonical JSON.
pub mod Numbers
use sealr_verify.Common.{
  ℕ, zero, suc, ◌+◌, ◌*◌, ◌/◌, ◌%◌, ◌^◌, Bool, true, false, ◌&&◌, List, [], ◌∷◌, ◌++◌, ltb, leb,
  ◌==◌, if◌then◌else◌,
}
use sealr_verify.Common.Text.{Bytes, Str, codes, utf8, utf16}
use sealr_verify.Common.Result.{Result, ok, err, EvidenceError, unsafe_number, ◌>>=◌}
use sealr_verify.Hash.{hex_encode}
use sealr_verify.Json.{
  Double, Number, pos_int, neg_int, float, Value, Items, Fields, null, bool, number, string, array,
  object, nil, cons, end, field,
}

abbrev pub max_safe_integer : ℕ
max_safe_integer = 9_007_199_254_740_991

-- `to_string` of a u64; the fuel bounds the digits, and the number itself is enough
decimal_loop : ℕ → ℕ → Bytes → Bytes
decimal_loop zero n out = out
decimal_loop (suc f) n out =
    let more = decimal_loop f (n / 10) ((b'0' + n % 10) ∷ out) in
    if ltb n 10 then (b'0' + n) ∷ out else more

unfoldable pub decimal : ℕ → Bytes
unfolding decimal_loop
decimal n = decimal_loop (suc n) n []

-- `to_string` of an i64 by its sign and its absolute value
signed_decimal : Bool → ℕ → Bytes
unfolding decimal
signed_decimal negative n = if negative && ltb 0 n then b'-' ∷ decimal n else decimal n

-- `fract() == 0.0`
is_integral : Double → Bool
is_integral f = f.mantissa * 2 ^ f.up % 2 ^ f.down == 0

-- the absolute value of `f as i64`, where `f` is integral
magnitude : Double → ℕ
magnitude f = f.mantissa * 2 ^ f.up / 2 ^ f.down

unfoldable pub write_number : Number → Result EvidenceError Bytes
unfolding signed_decimal is_integral magnitude
write_number (pos_int u) = if ltb max_safe_integer u then err unsafe_number else ok (decimal u)
write_number (neg_int n) =
    if ltb max_safe_integer n then err unsafe_number else ok (signed_decimal true n)
write_number (float f) =
    if is_integral f && leb (magnitude f) max_safe_integer
    then ok (signed_decimal f.negative (magnitude f))
    else err unsafe_number

write_char : ℕ → Bytes
write_char c =
    if c == b'"'
    then codes "\\\""
    else if c == b'\\'
    then codes "\\\\"
    else if c == 0x08
    then codes "\\b"
    else if c == 0x09
    then codes "\\t"
    else if c == 0x0a
    then codes "\\n"
    else if c == 0x0c
    then codes "\\f"
    else if c == 0x0d
    then codes "\\r"
    else if ltb c 0x20
    then codes "\\u00" ++ hex_encode (c ∷ [])
    else utf8 (c ∷ [])

write_chars : Str → Bytes
unfolding write_char
write_chars [] = []
write_chars (c ∷ s) = write_char c ++ write_chars s

unfoldable pub write_string : Str → Bytes
unfolding write_chars
write_string s = b'"' ∷ (write_chars s ++ b'"' ∷ [])

-- `a16.cmp(&b16)` is not `Greater`
unfoldable pub lex_le : List ℕ → List ℕ → Bool
lex_le [] t = true
lex_le (a ∷ s) [] = false
lex_le (a ∷ s) (b ∷ t) =
    let rest = lex_le s t in if ltb a b then true else if a == b then rest else false

-- a member with what writing its value gives
abbrev pub Rendered : Type 0
Rendered = Str × Result EvidenceError Bytes

unfoldable pub insert_member : Rendered → List Rendered → List Rendered
insert_member (k, v) [] = (k, v) ∷ []
insert_member (k, v) ((j, w) ∷ l) =
    if lex_le (utf16 k) (utf16 j) then (k, v) ∷ (j, w) ∷ l else (j, w) ∷ insert_member (k, v) l

-- `keys.sort_by`, stable, by UTF-16 code units
unfoldable pub sort_members : List Rendered → List Rendered
unfolding insert_member
sort_members [] = []
sort_members (p ∷ l) = insert_member p (sort_members l)

-- the comma in front of all but the first (`i > 0`)
abbrev comma : Bool → Bytes
comma true = []
comma false = b',' ∷ []

unfoldable pub write_members : Bool → List Rendered → Result EvidenceError Bytes
write_members first [] = ok []
write_members first ((k, r) ∷ l) = do
  v ← r
  rest ← write_members false l
  ok (comma first ++ (write_string k ++ (b':' ∷ (v ++ rest))))

unfoldable mutual
  pub write_value : Value → Result EvidenceError Bytes
  write_value null = ok (codes "null")
  write_value (bool true) = ok (codes "true")
  write_value (bool false) = ok (codes "false")
  write_value (number n) = write_number n
  write_value (string s) = ok (write_string s)
  write_value (array l) = do body ← write_items true l; ok (b'[' ∷ (body ++ b']' ∷ []))
  write_value (object fs) = do
    body ← write_members true (sort_members (render fs))
    ok (b'{' ∷ (body ++ b'}' ∷ []))

  pub write_items : Bool → Items → Result EvidenceError Bytes
  write_items first nil = ok []
  write_items first (cons v l) = do
    b ← write_value v
    rest ← write_items false l
    ok (comma first ++ (b ++ rest))

  pub render : Fields → List Rendered
  render end = []
  render (field k v fs) = (k, write_value v) ∷ render fs

unfoldable pub to_jcs_bytes : Value → Result EvidenceError Bytes
unfolding write_value
to_jcs_bytes value = write_value value
