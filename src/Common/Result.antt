-- ===== src/Common/Result.antt =====
-- The errors of crates/evidence/src/error.rs and crates/bundle/src/error.rs, and results that may
-- hold one. An error keeps its kind; the texts that the variants carry are not modelled.
use mathlib.Core.Path.{◌≡◌, refl}
use mathlib.Core.List.{List, [], ◌∷◌}
use mathlib.Core.Bool.{Bool, true, false}
use mathlib.Core.Option.{Option, none, some}

-- `EvidenceError`
pub data EvidenceError : Type 0 where
  unsafe_number json invalid_hex signature_invalid key certificate checkpoint merkle_proof schema :
      EvidenceError

-- `BundleError`
pub data BundleError : Type 0 where
  io zip json manifest content_hash_mismatch missing_entry invalid : BundleError
  evidence : EvidenceError → BundleError

pub data Result {ℓ κ} (E : Type ℓ) (A : Type κ) : Type (ℓ ⊔ κ) where
  ok : A → Result E A
  err : E → Result E A

infixl 5 ◌>>=◌
abbrev pub ◌>>=◌ {ℓ κ λ'} :
    {E : Type ℓ} {A : Type κ} {B : Type λ'} → Result E A → (A → Result E B) → Result E B
ok a >>= f = f a
err e >>= f = err e

pub >>=-eq-ok {ℓ κ λ'} :
    {E : Type ℓ} {A : Type κ} {B : Type λ'} (first : Result E A) (next : A → Result E B) {out : B}
    → (first >>= next) ≡ ok out
    → (got : A) × (first ≡ ok got) × (next got ≡ ok out)
>>=-eq-ok (err problem) next is = cc
>>=-eq-ok (ok got) next is = (got, refl, is)

-- `iter().map(f).collect::<Result<Vec<_>>>()`
abbrev pub collect {ℓ κ λ'} :
    {E : Type ℓ} {A : Type κ} {B : Type λ'} → (A → Result E B) → List A → Result E (List B)
collect f [] = ok []
collect f (x ∷ xs) = do y ← f x; ys ← collect f xs; ok (y ∷ ys)

pub ok_injective {ℓ κ} :
    {E : Type ℓ} {A : Type κ} {a b : A} → ◌≡◌ {A = Result E A} (ok a) (ok b) → a ≡ b
ok_injective h = cc

-- a value that is there is the only one
pub some_unique {ℓ} : {A : Type ℓ} {o : Option A} {a b : A} → o ≡ some a → o ≡ some b → a ≡ b
some_unique p q = cc (p, q)

-- `ok_or` and `map_err` to a given error
abbrev pub or_error {ℓ κ} : {E : Type ℓ} {A : Type κ} → E → Option A → Result E A
or_error problem none = err problem
or_error problem (some a) = ok a

-- an error where a test does not hold
abbrev pub require {ℓ} : {E : Type ℓ} → E → Bool → Result E (Unit {0})
require problem true = ok tt
require problem false = err problem

pub or_error-ok {ℓ κ} :
    {E : Type ℓ} {A : Type κ} (problem : E) (o : Option A) {a : A}
    → or_error problem o ≡ ok a
    → o ≡ some a
or_error-ok problem none h = absurd (cc)
or_error-ok problem (some b) h = cc

pub require-ok {ℓ} :
    {E : Type ℓ} (problem : E) (b : Bool) {u : Unit {0}} → require problem b ≡ ok u → b ≡ true
require-ok problem true h = refl
require-ok problem false h = absurd (cc)

pub some_injective {ℓ} : {A : Type ℓ} {a b : A} → some a ≡ some b → a ≡ b
some_injective h = cc
