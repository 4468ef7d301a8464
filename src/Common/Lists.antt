-- ===== src/Common/Lists.antt =====
-- Lists measured and indexed by native numbers, under the library's names.
use Prim.Native.Nat.{ℕ, zero, suc, ◌+◌, ◌-◌, ◌≤◌, ◌<◌}
use mathlib.Core.Path.{◌≡◌, refl, ap, ◌∙◌, subst}
use mathlib.Core.List.{List, [], ◌∷◌, ◌++◌, map}
use mathlib.Core.Option.{Option, none, some}
use native.Mathlib.Omega.{arith}

module _ {ℓ} {A : Type ℓ} where
  abbrev pub length : List A → ℕ
  length [] = 0
  length (x ∷ xs) = suc (length xs)

  abbrev pub get_elem? : List A → ℕ → Option A
  get_elem? [] i = none
  get_elem? (x ∷ xs) zero = some x
  get_elem? (x ∷ xs) (suc i) = get_elem? xs i

  abbrev pub take : ℕ → List A → List A
  take zero xs = []
  take (suc n) [] = []
  take (suc n) (x ∷ xs) = x ∷ take n xs

  abbrev pub drop : ℕ → List A → List A
  drop zero xs = xs
  drop (suc n) [] = []
  drop (suc n) (x ∷ xs) = drop n xs

  abbrev pub All {κ} : (A → Type κ) → List A → Type κ
  All P [] = Unit {κ}
  All P (x ∷ xs) = P x × All P xs

module _ {ℓ} {A : Type ℓ} where
  pub length-append : (xs ys : List A) → length (xs ++ ys) ≡ length xs + length ys
  length-append [] ys = omega arith
  length-append (x ∷ xs) ys = omega (arith, length-append xs ys)

  pub take-append-drop : (n : ℕ) (xs : List A) → take n xs ++ drop n xs ≡ xs
  take-append-drop zero xs = refl
  take-append-drop (suc n) [] = refl
  take-append-drop (suc n) (x ∷ xs) = rw (take-append-drop n xs)

  pub length-take : (n : ℕ) (xs : List A) → n ≤ length xs → length (take n xs) ≡ n
  length-take zero xs h = refl
  length-take (suc n) [] h = absurd (omega arith)
  length-take (suc n) (x ∷ xs) h = ap suc (length-take n xs (omega arith))

  pub length-drop : (n : ℕ) (xs : List A) → length (drop n xs) ≡ length xs - n
  length-drop zero xs = omega arith
  length-drop (suc n) [] = omega arith
  length-drop (suc n) (x ∷ xs) = omega (arith, length-drop n xs)

  pub get_elem?-take : (n i : ℕ) (xs : List A) → i < n → get_elem? (take n xs) i ≡ get_elem? xs i
  get_elem?-take zero i xs h = absurd (omega arith)
  get_elem?-take (suc n) i [] h = refl
  get_elem?-take (suc n) zero (x ∷ xs) h = refl
  get_elem?-take (suc n) (suc i) (x ∷ xs) h = get_elem?-take n i xs (omega arith)

  pub get_elem?-drop :
      (n i : ℕ) (xs : List A) → n ≤ i → get_elem? (drop n xs) (i - n) ≡ get_elem? xs i
  get_elem?-drop zero i xs h = ap (get_elem? xs) (omega arith)
  get_elem?-drop (suc n) i [] h = refl
  get_elem?-drop (suc n) zero (x ∷ xs) h = absurd (omega arith)
  get_elem?-drop (suc n) (suc i) (x ∷ xs) h =
      ap (get_elem? (drop n xs)) (omega arith) ∙ get_elem?-drop n i xs (omega arith)

  pub All-append {κ} : (P : A → Type κ) (xs ys : List A) → All P xs → All P ys → All P (xs ++ ys)
  All-append P [] ys _ hy = hy
  All-append P (x ∷ xs) ys (px, hx) hy = (px, All-append P xs ys hx hy)

pub length-map {ℓ κ} :
    {A : Type ℓ} {B : Type κ} (f : A → B) (xs : List A) → length (map f xs) ≡ length xs
length-map f [] = refl
length-map f (x ∷ xs) = ap suc (length-map f xs)

module _ {ℓ} {A : Type ℓ} where
  pub lt_of_get_elem? : (xs : List A) (i : ℕ) {x : A} → get_elem? xs i ≡ some x → i < length xs
  lt_of_get_elem? [] i h = absurd (cc)
  lt_of_get_elem? (y ∷ xs) zero h = omega arith
  lt_of_get_elem? (y ∷ xs) (suc i) h = omega (arith, lt_of_get_elem? xs i h)

  pub get_elem?_of_take :
      (n i : ℕ) (xs : List A) {x : A} → get_elem? (take n xs) i ≡ some x → get_elem? xs i ≡ some x
  get_elem?_of_take zero i xs h = absurd (cc)
  get_elem?_of_take (suc n) i [] h = h
  get_elem?_of_take (suc n) zero (y ∷ xs) h = h
  get_elem?_of_take (suc n) (suc i) (y ∷ xs) h = get_elem?_of_take n i xs h

  pub get_elem?_of_drop :
      (n i : ℕ) (xs : List A) {x : A}
      → get_elem? (drop n xs) i ≡ some x
      → (j : ℕ) × (get_elem? xs j ≡ some x)
  get_elem?_of_drop zero i xs h = (i, h)
  get_elem?_of_drop (suc n) i [] h = absurd (cc)
  get_elem?_of_drop (suc n) i (y ∷ xs) h = let (j, e) = get_elem?_of_drop n i xs h in (suc j, e)

  pub append_injective :
      (xs ys : List A) {us vs : List A}
      → length xs ≡ length ys
      → xs ++ us ≡ ys ++ vs
      → (xs ≡ ys) × (us ≡ vs)
  append_injective [] [] e h = (refl, h)
  append_injective [] (y ∷ ys) e h = absurd (omega arith)
  append_injective (x ∷ xs) [] e h = absurd (omega arith)
  append_injective (x ∷ xs) (y ∷ ys) {us} {vs} e h =
      let tails : xs ++ us ≡ ys ++ vs = cc in
      let (p, q) = append_injective xs ys (omega arith) tails in (cc, q)

pub get_elem?-map {ℓ κ} :
    {A : Type ℓ} {B : Type κ} (f : A → B) (xs : List A) (i : ℕ) {x : A}
    → get_elem? xs i ≡ some x
    → get_elem? (map f xs) i ≡ some (f x)
get_elem?-map f [] i h = absurd (cc)
get_elem?-map f (y ∷ xs) zero h = cc
get_elem?-map f (y ∷ xs) (suc i) h = get_elem?-map f xs i h

pub All-get_elem? {ℓ κ} :
    {A : Type ℓ} (P : A → Type κ) (xs : List A) (i : ℕ) {x : A}
    → All P xs
    → get_elem? xs i ≡ some x
    → P x
All-get_elem? P [] i h e = absurd (cc)
All-get_elem? P (y ∷ xs) zero h e = let same : y ≡ _ = cc in subst P same h.0
All-get_elem? P (y ∷ xs) (suc i) h e = All-get_elem? P xs i h.1 e

pub All-map {ℓ κ λ'} :
    {A : Type ℓ} {P : A → Type κ} {Q : A → Type λ'} (l : List A)
    → ((x : A) → P x → Q x)
    → All P l
    → All Q l
All-map [] f h = tt
All-map (x ∷ l) f (this, h) = (f x this, All-map l f h)

module _ {ℓ} {A : Type ℓ} where
  pub All-of_get_elem? {κ} :
      (P : A → Type κ) (l : List A) → ((i : ℕ) (x : A) → get_elem? l i ≡ some x → P x) → All P l
  All-of_get_elem? P [] h = tt
  All-of_get_elem? P (x ∷ l) h = (h 0 x refl, All-of_get_elem? P l (λ i. h (suc i)))

  pub get_elem?-append :
      (l m : List A) (i : ℕ) {x : A} → get_elem? l i ≡ some x → get_elem? (l ++ m) i ≡ some x
  get_elem?-append [] m i h = absurd (cc)
  get_elem?-append (y ∷ l) m zero h = h
  get_elem?-append (y ∷ l) m (suc i) h = get_elem?-append l m i h

  pub get_elem?-last : (l : List A) (x : A) → get_elem? (l ++ x ∷ []) (length l) ≡ some x
  get_elem?-last [] x = refl
  get_elem?-last (y ∷ l) x = get_elem?-last l x

  pub get_elem?-skip : (l m : List A) (i : ℕ) → get_elem? (l ++ m) (length l + i) ≡ get_elem? m i
  get_elem?-skip [] m i = ap (get_elem? m) (omega arith)
  get_elem?-skip (x ∷ l) m i =
      let one : suc (length l) + i ≡ suc (length l + i) = omega arith in
      ap (get_elem? (x ∷ l ++ m)) one ∙ get_elem?-skip l m i

  pub All-take {κ} : (P : A → Type κ) (n : ℕ) (l : List A) → All P l → All P (take n l)
  All-take P zero l h = tt
  All-take P (suc n) [] h = tt
  All-take P (suc n) (x ∷ l) (this, h) = (this, All-take P n l h)

  pub All-drop {κ} : (P : A → Type κ) (n : ℕ) (l : List A) → All P l → All P (drop n l)
  All-drop P zero l h = h
  All-drop P (suc n) [] h = tt
  All-drop P (suc n) (x ∷ l) (this, h) = All-drop P n l h
