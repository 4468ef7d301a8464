-- ===== src/Projection/Bounds.antt =====
-- What `sanitize` leaves of a text.
use sealr_verify.Common.{
  ℕ, ◌+◌, ◌≤◌, ◌≡◌, refl, ap, ◌∙◌, sym, false, Bool-cases, inl, inr, [], ◌∷◌, All, length, leb,
  arith, length-append, append-nil,
}
use sealr_verify.Common.Text.{Str, utf8}
use sealr_verify.Projection.{is_control, len_utf8, sanitize_from, sanitize}

length-utf8-cons : (c : ℕ) (s : Str) → length (utf8 (c ∷ s)) ≡ len_utf8 c + length (utf8 s)
unfolding utf8
length-utf8-cons c s =
    length-append _ (utf8 s) ∙ ap (λ x. length x + length (utf8 s)) (sym (append-nil _))

len_utf8-le : (c : ℕ) → len_utf8 c ≤ 4
unfolding utf8
len_utf8-le c = ground arith

len_utf8-pos : (c : ℕ) → 1 ≤ len_utf8 c
unfolding utf8
len_utf8-pos c = ground arith

sanitize_from-bounded :
    (max n : ℕ) (s : Str) → n ≤ max + 3 → n + length (utf8 (sanitize_from max n s)) ≤ max + 6
unfolding sanitize_from
sanitize_from-bounded max n [] h = unfold utf8 in omega arith
sanitize_from-bounded max n (c ∷ s) h = elim (Bool-cases (leb max n)) [
  | inl t ↦ rw (t, sanitize_from) (unfold utf8 in omega arith)
  | inr t ↦ elim (Bool-cases (is_control c)) [
    | inl k ↦ rw (t, k, sanitize_from) (sanitize_from-bounded max n s h)
    | inr k ↦
        rw (t, k, sanitize_from)
          (omega (
            arith,
            length-utf8-cons c (sanitize_from max (n + len_utf8 c) s),
            sanitize_from-bounded max (n + len_utf8 c) s (ground (arith, len_utf8-le c, t)),
          ))
  ]
]

-- A sanitized text has at most `max_len + 6` bytes: the last character may begin below the limit
-- and have four bytes, and the ellipsis has three.
pub sanitize-bounded : (s : Str) (max_len : ℕ) → length (utf8 (sanitize s max_len)) ≤ max_len + 6
unfolding sanitize
sanitize-bounded s max_len = omega (arith, sanitize_from-bounded max_len 0 s (omega arith))

sanitize_from-clean :
    (max n : ℕ) (s : Str) → All (λ c. is_control c ≡ false) (sanitize_from max n s)
unfolding sanitize_from
sanitize_from-clean max n [] = tt
sanitize_from-clean max n (c ∷ s) = elim (Bool-cases (leb max n)) [
  | inl t ↦ rw (t, sanitize_from) (refl, tt)
  | inr t ↦ elim (Bool-cases (is_control c)) [
    | inl k ↦ rw (t, k, sanitize_from) (sanitize_from-clean max n s)
    | inr k ↦ rw (t, k, sanitize_from) (k, sanitize_from-clean max (n + len_utf8 c) s)
  ]
]

-- A sanitized text has no control characters.
pub sanitize-clean : (s : Str) (max_len : ℕ) → All (λ c. is_control c ≡ false) (sanitize s max_len)
unfolding sanitize
sanitize-clean s max_len = sanitize_from-clean max_len 0 s

sanitize_from-short :
    (max n : ℕ) (s : Str)
    → All (λ c. is_control c ≡ false) s
    → n + length (utf8 s) ≤ max
    → sanitize_from max n s ≡ s
unfolding sanitize_from
sanitize_from-short max n [] h l = refl
sanitize_from-short max n (c ∷ s) h l =
    let size = length-utf8-cons c s in
    let some_bytes = len_utf8-pos c in
    let t : leb max n ≡ false = ground arith in
    rw (t, h.0, sanitize_from)
      (ap (λ r. c ∷ r) (sanitize_from-short max (n + len_utf8 c) s h.1 (omega arith)))

-- A text without control characters that fits is left as it is.
pub sanitize-short :
    (s : Str) (max_len : ℕ)
    → All (λ c. is_control c ≡ false) s
    → length (utf8 s) ≤ max_len
    → sanitize s max_len ≡ s
unfolding sanitize
sanitize-short s max_len h l = sanitize_from-short max_len 0 s h (omega (arith, l))
