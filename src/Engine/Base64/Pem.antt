-- ===== src/Engine/Base64/Pem.antt =====
-- `der_to_pem`: its lines hold the whole encoding, and nothing else.
use sealr_verify.Common.{
  ℕ, zero, suc, ◌≤◌, ◌≡◌, refl, ap, ◌∙◌, false, [], ◌∷◌, ◌++◌, length, take, drop, length-take,
  List, All, All-take, All-drop, take-append-drop, length-drop, ◌==◌, arith,
}
use sealr_verify.Common.Text.{Bytes, Str, codes, IsByte}
use sealr_verify.Engine.Base64.{base64_encode, lines_of_64, der_to_pem}
use sealr_verify.Engine.Base64.RoundTrip.{decode, decode-base64_encode, sextet-ne-newline}

abbrev pub IsInLine : ℕ → Type 0
IsInLine c = (c == 10) ≡ false

-- lines of a text, each with the newline that ends it
unfoldable pub with_newlines : List Str → Str
with_newlines [] = []
with_newlines (l ∷ lines) = l ++ (codes "\n" ++ with_newlines lines)

-- the lines put together
unfoldable pub joined : List Str → Str
joined [] = []
joined (l ∷ lines) = l ++ joined lines

-- each line has 64 characters, the last one at least one and at most 64
unfoldable pub IsWrapped : List Str → Type 0
IsWrapped [] = Unit
IsWrapped (l ∷ []) = (1 ≤ length l) × (length l ≤ 64)
IsWrapped (l ∷ m ∷ lines) = (length l ≡ 64) × IsWrapped (m ∷ lines)

-- the lines that `lines_of_64` writes
chunks : ℕ → Str → List Str
chunks zero s = []
chunks (suc f) [] = []
chunks (suc f) (c ∷ s) = take 64 (c ∷ s) ∷ chunks f (drop 64 (c ∷ s))

lines_of_64-chunks : (f : ℕ) (s : Str) → lines_of_64 f s ≡ with_newlines (chunks f s)
unfolding lines_of_64 with_newlines chunks
lines_of_64-chunks zero s = refl
lines_of_64-chunks (suc f) [] = refl
lines_of_64-chunks (suc f) (c ∷ s) =
    ap (λ t. take 64 (c ∷ s) ++ (codes "\n" ++ t)) (lines_of_64-chunks f (drop 64 (c ∷ s)))

-- as much fuel as there are characters is enough: none is left out
joined-chunks : (f : ℕ) (s : Str) → length s ≤ f → joined (chunks f s) ≡ s
unfolding chunks joined
joined-chunks zero [] le = refl
joined-chunks zero (c ∷ s) le = absurd (omega arith)
joined-chunks (suc f) [] le = refl
joined-chunks (suc f) (c ∷ s) le =
    let shorter : length (drop 64 (c ∷ s)) ≤ f = omega (arith, length-drop 64 (c ∷ s)) in
    ap (λ t. take 64 (c ∷ s) ++ t) (joined-chunks f (drop 64 (c ∷ s)) shorter)
    ∙ take-append-drop 64 (c ∷ s)

length-take_le : (n : ℕ) (s : Str) → length (take n s) ≤ n
length-take_le zero s = omega arith
length-take_le (suc n) [] = omega arith
length-take_le (suc n) (c ∷ s) = omega (arith, length-take_le n s)

IsWrapped-cons :
    (f : ℕ) (l s : Str)
    → 1 ≤ length l
    → length l ≤ 64
    → (1 ≤ length s → length l ≡ 64)
    → length s ≤ f
    → IsWrapped (chunks f s)
    → IsWrapped (l ∷ chunks f s)
unfolding chunks IsWrapped
IsWrapped-cons zero l s some_of most full le rest = (some_of, most)
IsWrapped-cons (suc f) l [] some_of most full le rest = (some_of, most)
IsWrapped-cons (suc f) l (c ∷ s) some_of most full le rest = (full (omega arith), rest)

chunks-IsWrapped : (f : ℕ) (s : Str) → length s ≤ f → IsWrapped (chunks f s)
unfolding chunks IsWrapped
chunks-IsWrapped zero s le = tt
chunks-IsWrapped (suc f) [] le = tt
chunks-IsWrapped (suc f) (c ∷ s) le =
    let shorter : length (drop 64 (c ∷ s)) ≤ f = omega (arith, length-drop 64 (c ∷ s)) in
    IsWrapped-cons f (take 64 (c ∷ s)) (drop 64 (c ∷ s)) (omega arith) (length-take_le 64 (c ∷ s))
      (λ more. length-take 64 (c ∷ s) (omega (arith, more, length-drop 64 (c ∷ s)))) shorter
      (chunks-IsWrapped f (drop 64 (c ∷ s)) shorter)

chunks-IsInLine : (f : ℕ) (s : Str) → All IsInLine s → All (All IsInLine) (chunks f s)
unfolding chunks
chunks-IsInLine zero s h = tt
chunks-IsInLine (suc f) [] h = tt
chunks-IsInLine (suc f) (c ∷ s) h =
    (All-take IsInLine 64 (c ∷ s) h, chunks-IsInLine f _ (All-drop IsInLine 64 (c ∷ s) h))

base64_encode-IsInLine : (b : Bytes) → All IsInLine (base64_encode b)
unfolding base64_encode
base64_encode-IsInLine [] = tt
base64_encode-IsInLine (a ∷ []) = (sextet-ne-newline _, (sextet-ne-newline _, (refl, (refl, tt))))
base64_encode-IsInLine (a ∷ b ∷ []) =
    (sextet-ne-newline _, (sextet-ne-newline _, (sextet-ne-newline _, (refl, tt))))
base64_encode-IsInLine (a ∷ b ∷ c ∷ l) = (
  sextet-ne-newline _,
  (sextet-ne-newline _, (sextet-ne-newline _, (sextet-ne-newline _, base64_encode-IsInLine l))),
)

-- A certificate that is written as PEM stands between the two lines of the format. Between them
-- stand lines of 64 characters, the last one of 1 to 64, each ended by a newline and without one
-- inside, which put together and decoded by RFC 4648 are its bytes.
pub der_to_pem_lem :
    (der : Bytes)
    → All IsByte der
    → (lines : List Str) × (der_to_pem der
        ≡ codes "-----BEGIN CERTIFICATE-----\n"
          ++ (with_newlines lines ++ codes "-----END CERTIFICATE-----\n"))
      × IsWrapped lines
      × All (All IsInLine) lines
      × (decode (joined lines) ≡ der)
unfolding der_to_pem
der_to_pem_lem der h =
    let b64 = base64_encode der in
    (
      chunks (length b64) b64,
      ap (λ t. codes "-----BEGIN CERTIFICATE-----\n" ++ (t ++ codes "-----END CERTIFICATE-----\n"))
          (lines_of_64-chunks (length b64) b64),
      chunks-IsWrapped (length b64) b64 (omega arith),
      chunks-IsInLine (length b64) b64 (base64_encode-IsInLine der),
      ap decode (joined-chunks (length b64) b64 (omega arith)) ∙ decode-base64_encode der h,
    )
