-- ===== src/Prelude/Errors.antt =====
-- Python code that may raise: a value, or the exception. Messages are not modelled; where the code
-- tells one refusal from another, the component's own error type has a constructor for each.
use mathlib.Core.Path.{◌≡◌, refl}
use mathlib.Core.Logic.{◌⊎◌, inl, inr}
use mathlib.Core.Option.{Option, none, some}
use mathlib.Core.Bool.{Bool, true, false}

pub data Result {ℓ} (E A : Type ℓ) : Type ℓ where
  ok : A → Result E A
  err : E → Result E A

infixl 5 ◌>>=◌ ◌>>◌
abbrev pub ◌>>=◌ {ℓ} : {E A B : Type ℓ} → Result E A → (A → Result E B) → Result E B
ok a >>= f = f a
err e >>= f = err e

abbrev pub ◌>>◌ {ℓ} : {E B : Type ℓ} → Result E (Unit {ℓ}) → Result E B → Result E B
m >> k = m >>= λ _. k

-- `if bad: raise e`
abbrev pub raise_if {ℓ} : {E : Type ℓ} → Bool → E → Result E (Unit {ℓ})
raise_if true e = err e
raise_if false e = ok tt

-- A lookup that raises when there is nothing to find.
abbrev pub or_raise {ℓ} : {E A : Type ℓ} → Option A → E → Result E A
or_raise none e = err e
or_raise (some a) e = ok a

pub Result-cases {ℓ} :
    {E A : Type ℓ} (r : Result E A) → ((a : A) × (r ≡ ok a)) ⊎ ((e : E) × (r ≡ err e))
Result-cases (ok a) = inl (a, refl)
Result-cases (err e) = inr (e, refl)

-- No value, at any level.
pub data Fails {ℓ} : Type ℓ where

-- The code returns, and what it returns satisfies `P`.
abbrev pub Ensures {ℓ} : {E A : Type ℓ} → (A → Type ℓ) → Result E A → Type ℓ
Ensures P (ok a) = P a
Ensures P (err e) = Fails

pub Ensures-bind {ℓ} :
    {E A B : Type ℓ} (P : A → Type ℓ) (Q : B → Type ℓ) (m : Result E A) (f : A → Result E B)
    → Ensures P m
    → ((a : A) → P a → Ensures Q (f a))
    → Ensures Q (m >>= f)
Ensures-bind P Q (ok a) f h k = k a h
Ensures-bind P Q (err e) f h k = elim h [ ]

pub Ensures-map {ℓ} :
    {E A : Type ℓ} (P Q : A → Type ℓ) (m : Result E A)
    → ((a : A) → m ≡ ok a → P a → Q a)
    → Ensures P m
    → Ensures Q m
Ensures-map P Q (ok a) k h = k a refl h
Ensures-map P Q (err e) k h = elim h [ ]

pub Ensures-eq {ℓ} :
    {E A : Type ℓ} (P : A → Type ℓ) (m : Result E A) {a : A} → m ≡ ok a → Ensures P m → P a
Ensures-eq P m {a} e h = rw e at h

pub Ensures-ok {ℓ} :
    {E A : Type ℓ} (P : A → Type ℓ) (m : Result E A) → Ensures P m → (a : A) × (m ≡ ok a) × P a
Ensures-ok P (ok a) h = (a, refl, h)
Ensures-ok P (err e) h = elim h [ ]

pub Ensures-and {ℓ} :
    {E A : Type ℓ} (P Q : A → Type ℓ) {R : A → Type ℓ} (m : Result E A)
    → ((a : A) → P a → Q a → R a)
    → Ensures P m
    → Ensures Q m
    → Ensures R m
Ensures-and P Q (ok a) k h h' = k a h h'
Ensures-and P Q (err e) k h h' = elim h [ ]

-- What the code returns, if it returns, satisfies `P`.
abbrev pub Permits {ℓ} : {E A : Type ℓ} → (A → Type ℓ) → Result E A → Type ℓ
Permits P (ok a) = P a
Permits P (err e) = Unit

pub Permits-bind {ℓ} :
    {E A B : Type ℓ} (P : A → Type ℓ) (Q : B → Type ℓ) (m : Result E A) (f : A → Result E B)
    → Permits P m
    → ((a : A) → P a → Permits Q (f a))
    → Permits Q (m >>= f)
Permits-bind P Q (ok a) f h k = k a h
Permits-bind P Q (err e) f h k = tt

pub Permits-eq {ℓ} :
    {E A : Type ℓ} (P : A → Type ℓ) (m : Result E A) → ((a : A) → m ≡ ok a → P a) → Permits P m
Permits-eq P (ok a) h = h a refl
Permits-eq P (err e) h = tt

pub Permits-at {ℓ} :
    {E A : Type ℓ} (P : A → Type ℓ) (m : Result E A) {a : A} → m ≡ ok a → Permits P m → P a
Permits-at P m {a} e h = rw e at h

-- The first of two steps says nothing about the result.
pub Permits-after {ℓ} :
    {E A B : Type ℓ} (Q : B → Type ℓ) (m : Result E A) (f : A → Result E B)
    → ((a : A) → Permits Q (f a))
    → Permits Q (m >>= f)
Permits-after Q (ok a) f k = k a
Permits-after Q (err e) f k = tt

pub Permits-map {ℓ} :
    {E A : Type ℓ} (P Q : A → Type ℓ) (m : Result E A)
    → ((a : A) → P a → Q a)
    → Permits P m
    → Permits Q m
Permits-map P Q (ok a) k h = k a h
Permits-map P Q (err e) k h = tt

pub Permits-step {ℓ} :
    {E A B : Type ℓ} (Q : B → Type ℓ) (m : Result E A) (f : A → Result E B)
    → ((a : A) → m ≡ ok a → Permits Q (f a))
    → Permits Q (m >>= f)
Permits-step Q (ok a) f k = k a refl
Permits-step Q (err e) f k = tt

pub Permits-Ensures {ℓ} :
    {E A : Type ℓ} (P : A → Type ℓ) (m : Result E A)
    → Permits P m
    → Ensures (λ _. Unit) m
    → Ensures P m
Permits-Ensures P (ok a) h k = h
Permits-Ensures P (err e) h k = elim k [ ]
