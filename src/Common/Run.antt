-- ===== src/Common/Run.antt =====
-- A method on `&mut self`: it returns its result and the state it leaves, after an error too, since
-- what was written stays written.
use mathlib.Core.Path.{◌≡◌, refl}
use mathlib.Core.Bool.{Bool, true, false}
use sealr_verify.Common.Tests.{if◌then◌else◌}
use sealr_verify.Common.Result.{Result, ok, err}

abbrev pub Run : Type 0 → Type 0 → Type 0 → Type 0
Run E S A = S → Result E A × S

module _ {E S : Type 0} where
  -- what runs after a step that left a result and a state
  abbrev pub after : {A B : Type 0} → (A → Run E S B) → Result E A × S → Result E B × S
  after f (ok a, s) = f a s
  after f (err e, s) = (err e, s)

  infixl 5 ◌>>=◌
  abbrev pub ◌>>=◌ : {A B : Type 0} → Run E S A → (A → Run E S B) → Run E S B
  ◌>>=◌ m f s = after f (m s)

  infixl 5 ◌>>◌
  abbrev pub ◌>>◌ : {A B : Type 0} → Run E S A → Run E S B → Run E S B
  ◌>>◌ m f = m >>= λ a. f

  abbrev pub pure : {A : Type 0} → A → Run E S A
  pure a s = (ok a, s)

  -- `?` on a result that does not touch the state
  abbrev pub lift : {A : Type 0} → Result E A → Run E S A
  lift r s = (r, s)

  abbrev pub fail : {A : Type 0} → E → Run E S A
  fail e s = (err e, s)

  abbrev pub gets : {A : Type 0} → (S → A) → Run E S A
  gets f s = (ok (f s), s)

  abbrev pub modify : (S → S) → Run E S (Unit {0})
  modify f s = (ok tt, f s)

  pub >>=-succeeds :
      {A B : Type 0} (m : Run E S A) (f : A → Run E S B) (s t : S) {b : B}
      → (m >>= f) s ≡ (ok b, t)
      → (a : A) × (u : S) × (m s ≡ (ok a, u)) × (f a u ≡ (ok b, t))
  >>=-succeeds m f s t {b} h = split (m s) refl h
    where
      split :
          (out : Result E _ × S)
          → m s ≡ out
          → after f out ≡ (ok b, t)
          → (a : _) × (u : S) × (m s ≡ (ok a, u)) × (f a u ≡ (ok b, t))
      split (ok a, u) e h = (a, u, e, h)
      split (err x, u) e h = absurd (cc)

  -- the laws of the monad, in terms of what follows an outcome
  pub after-after :
      {A B C : Type 0} (f : A → Run E S B) (g : B → Run E S C) (out : Result E A × S)
      → after g (after f out) ≡ after (λ a u. after g (f a u)) out
  after-after f g (ok a, u) = refl
  after-after f g (err x, u) = refl

  pub after-cong :
      {A B : Type 0} (f g : A → Run E S B) (out : Result E A × S)
      → ((a : A) (u : S) → f a u ≡ g a u)
      → after f out ≡ after g out
  after-cong f g (ok a, u) h = h a u
  after-cong f g (err x, u) h = refl

  pub lift-succeeds :
      {A B : Type 0} (r : Result E A) (f : A → Run E S B) (s t : S) {b : B}
      → (lift r >>= f) s ≡ (ok b, t)
      → (a : A) × (r ≡ ok a) × (f a s ≡ (ok b, t))
  lift-succeeds (ok a) f s t h = (a, refl, h)
  lift-succeeds (err x) f s t h = absurd (cc)

  -- a relation between the state before and the state after, whatever the result
  abbrev pub Moves : {A : Type 0} → (S → S → Type 0) → Run E S A → Type 0
  Moves R m = (s : S) → R s (m s).1

  pub Moves-bind :
      {A B : Type 0} (R : S → S → Type 0) (m : Run E S A) (f : A → Run E S B)
      → ((s t u : S) → R s t → R t u → R s u)
      → Moves R m
      → ((a : A) → Moves R (f a))
      → Moves R (m >>= f)
  Moves-bind R m f trans hm hf s = split (m s) (hm s)
    where
      split : (out : Result E _ × S) → R s out.1 → R s (after f out).1
      split (ok a, u) h = trans s u _ h (hf a u)
      split (err x, u) h = h

  -- a predicate that holds before a call that succeeds, and then after it
  abbrev pub Keeps : {A : Type 0} → (S → Type 0) → Run E S A → Type 0
  Keeps {A} P m = (s t : S) (a : A) → P s → m s ≡ (ok a, t) → P t

  pub Keeps-bind :
      {A B : Type 0} (P : S → Type 0) (m : Run E S A) (f : A → Run E S B)
      → Keeps P m
      → ((a : A) → Keeps P (f a))
      → Keeps P (m >>= f)
  Keeps-bind P m f hm hf s t b p h =
      let (a, u, first, second) = >>=-succeeds m f s t h in hf a u t b (hm s u a p first) second

  pub Keeps-pure : {A : Type 0} (P : S → Type 0) (a : A) → Keeps P (pure a)
  Keeps-pure P a s t b p h = let same : s ≡ t = cc in rw (← same) p

  pub Keeps-lift : {A : Type 0} (P : S → Type 0) (r : Result E A) → Keeps P (lift r)
  Keeps-lift P r s t b p h = let same : s ≡ t = cc in rw (← same) p

  pub Keeps-gets : {A : Type 0} (P : S → Type 0) (f : S → A) → Keeps P (gets f)
  Keeps-gets P f s t b p h = let same : s ≡ t = cc in rw (← same) p

  pub Keeps-fail : {A : Type 0} (P : S → Type 0) (e : E) → Keeps P (fail {A = A} e)
  Keeps-fail P e s t b p h = absurd (cc)

  pub Keeps-modify : (P : S → Type 0) (f : S → S) → ((s : S) → P s → P (f s)) → Keeps P (modify f)
  Keeps-modify P f hf s t b p h = let same : f s ≡ t = cc in rw (← same) (hf s p)

  pub Keeps-if :
      {A : Type 0} (P : S → Type 0) (t : Bool) {m n : Run E S A}
      → Keeps P m
      → Keeps P n
      → Keeps P (if t then m else n)
  Keeps-if P true hm hn = hm
  Keeps-if P false hm hn = hn

  -- what leaves the state alone moves by every reflexive relation
  pub Moves-still :
      {A : Type 0} (R : S → S → Type 0) → ((s : S) → R s s) → (r : Result E A) → Moves R (lift r)
  Moves-still R re r s = re s

  pub Moves-if :
      {A : Type 0} (R : S → S → Type 0) (t : Bool) (m n : Run E S A)
      → Moves R m
      → Moves R n
      → Moves R (if t then m else n)
  Moves-if R true m n hm hn = hm
  Moves-if R false m n hm hn = hn
